-- ===== src/Notifier/Event.antt =====
-- notifier.go: the event that a notifier sends for a record. The library's event carries further
-- fields, which are copied from the record; its severities and its bound on summaries are the
-- library's. url.Values and SHA-1 are parameters of the URL and the ID, which are left out.
pub mod Summary
use Prim.Native.Char.{Char}
use Prim.Native.String.{◌++◌ as str_append}
use text.Mathlib.Text.{find?}
use icinga_kubernetes.Common.{
  ℕ, zero, suc, ◌&&◌, ◌||◌, not, is_some, Bool, true, false, Option, some, none, String, str_eq,
  if◌then◌else◌,
}
use icinga_kubernetes.Common.Text.{to_lower}
use icinga_kubernetes.Model.{State, state_text, is_ok}
use icinga_kubernetes.Store.Tables.{OutboxRow}

pub data Severity : Type 0 where
  severity_ok severity_critical severity_warning : Severity

unfoldable pub severity : State → Severity
unfolding to_lower
severity state =
    let s = to_lower (state_text state) in
    if str_eq s "ok"
    then severity_ok
    else if str_eq s "critical"
    then severity_critical
    else severity_warning

abbrev pub is_in : String → Char → Bool
is_in set c = is_some (find? set (String.◌∷◌ c String.[]))

-- A line feed or a carriage return, which ReplaceAll makes a line feed.
unfoldable pub is_break : Char → Bool
is_break c = is_in "\n\r" c

-- unicode.IsSpace
unfoldable pub is_space : Char → Bool
is_space c =
    is_in "\t\n\r \u{b}\u{c}\u{85}\u{a0}\u{1680}" c
    || is_in "\u{2000}\u{2001}\u{2002}\u{2003}\u{2004}\u{2005}\u{2006}\u{2007}\u{2008}\u{2009}" c
    || is_in "\u{200a}\u{2028}\u{2029}\u{202f}\u{205f}\u{3000}" c

-- strings.SplitN(strings.ReplaceAll(message, "\r", "\n"), "\n", 2)[0]
unfoldable pub first_line : String → String
unfolding is_break
first_line String.[] = String.[]
first_line (String.◌∷◌ c s) =
    let rest = String.◌∷◌ c (first_line s) in if is_break c then String.[] else rest

-- strings.TrimSpace
unfoldable pub trim_start : String → String
unfolding is_space
trim_start String.[] = String.[]
trim_start (String.◌∷◌ c s) = let rest = trim_start s in if is_space c then rest else String.◌∷◌ c s

unfoldable pub trim_end : String → String
unfolding is_space
trim_end String.[] = String.[]
trim_end (String.◌∷◌ c s) =
    let rest = trim_end s in if is_space c && str_eq rest "" then String.[] else String.◌∷◌ c rest

-- string(runes[:n])
unfoldable pub take_runes : ℕ → String → String
take_runes zero s = String.[]
take_runes (suc n) String.[] = String.[]
take_runes (suc n) (String.◌∷◌ c s) = String.◌∷◌ c (take_runes n s)

abbrev pub default_message : String → String
default_message state = str_append "Kubernetes resource state is " state

-- eventSummary, for a bound on the length.
unfoldable pub event_summary : ℕ → String → String → String
unfolding first_line trim_start trim_end take_runes
event_summary max_summary_len message state =
    let summary = trim_end (trim_start (first_line message)) in
    take_runes max_summary_len (if str_eq summary "" then default_message state else summary)

pub record Event : Type 0 where
  pub name : String
  pub severity : Severity
  pub summary : String
  pub message : String
  pub close : Bool

abbrev pub display_name : OutboxRow → String
display_name r = str_append r.kind (
    str_append " "
      (if str_eq r.namespace "" then r.name else str_append r.namespace (str_append "/" r.name)))

-- makeEvent
unfoldable pub make_event : ℕ → OutboxRow → Event
unfolding severity event_summary
make_event max_summary_len r =
    let message = if str_eq r.reason "" then default_message (state_text r.state) else r.reason in
    record {
      name = display_name r;
      severity = severity r.state;
      summary = event_summary max_summary_len message (state_text r.state);
      message = message;
      close = str_eq r.action "delete" || is_ok r.state;
    }
