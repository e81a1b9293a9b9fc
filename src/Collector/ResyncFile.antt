-- ===== src/Collector/ResyncFile.antt =====
-- resync.go: the file of the targeted restarts. The decoder of the file and the validators of
-- Kubernetes names are parameters.
use Prim.Native.Char.{Char, code}
use icinga_kubernetes.Common.{
  ℕ, ◌≢◌, ◌⊎◌, leb, ◌≤◌, ◌≡◌, ltb, ◌==◌, ◌&&◌, ◌||◌, not, any, Bool, true, false, List, [], ◌∷◌,
  length, All, String, str_eq, len,
}
use icinga_kubernetes.Common.Int.{ℤ, pos, negsuc}
use icinga_kubernetes.Common.Result.{Result, ok, err, refuse, ◌>>◌}
use icinga_kubernetes.Collector.Discovery.{ResyncRequest}

pub data FileError : Type 0 where
  unreadable decode_failed trailing_content unsupported_version too_many : FileError
  invalid_request duplicate_id : String → FileError

-- validation.IsDNS1123Subdomain and IsDNS1035Label, true where they find no fault.
pub record Names : Type 0 where
  pub is_subdomain : String → Bool
  pub is_label : String → Bool

pub record Document : Type 0 where
  pub version : ℤ
  pub requests : List ResyncRequest

-- What reading and decoding the file come to.
pub data ResyncFile : Type 0 where
  missing failed undecodable trailing : ResyncFile
  document : Document → ResyncFile

abbrev pub is_between : ℕ → ℕ → Char → Bool
is_between low high c = leb low (code c) && leb (code c) high

-- A-Z, a-z, 0-9
abbrev pub is_alphanumeric : Char → Bool
is_alphanumeric c = is_between 65 90 c || is_between 97 122 c || is_between 48 57 c

-- _, ., -
abbrev pub is_punctuation : Char → Bool
is_punctuation c = (code c == 95) || (code c == 46) || (code c == 45)

abbrev id_tail : String → Bool
id_tail String.[] = true
id_tail (String.◌∷◌ c s) = (is_alphanumeric c || is_punctuation c) && id_tail s

-- ^[A-Za-z0-9][A-Za-z0-9_.-]{0,127}$
unfoldable pub is_resync_id : String → Bool
is_resync_id String.[] = false
is_resync_id (String.◌∷◌ c s) = is_alphanumeric c && id_tail s && not (ltb 127 (len s))

unfoldable pub is_invalid : Names → ResyncRequest → Bool
unfolding is_resync_id
is_invalid n r =
    not (is_resync_id r.id)
    || (not (str_eq r.gvr.group "") && not (n.is_subdomain r.gvr.group))
    || not (n.is_label r.gvr.version)
    || not (n.is_label r.gvr.resource)

abbrev pub is_seen : List String → String → Bool
is_seen seen id = any (str_eq id) seen

-- The loop over the requests, with the ids seen.
unfoldable pub check_requests :
    Names → List String → List ResyncRequest → Result FileError (Unit {0})
unfolding is_invalid
check_requests n seen [] = ok tt
check_requests n seen (r ∷ rs) =
    refuse (is_invalid n r) (FileError.invalid_request r.id)
    >> refuse (is_seen seen r.id) (FileError.duplicate_id r.id)
    >> check_requests n (r.id ∷ seen) rs

abbrev is_version_1 : ℤ → Bool
is_version_1 (pos v) = v == 1
is_version_1 (negsuc v) = false

-- loadResyncRequests
unfoldable pub load_resync_requests : Names → ResyncFile → Result FileError (List ResyncRequest)
unfolding check_requests
load_resync_requests n missing = ok []
load_resync_requests n failed = err FileError.unreadable
load_resync_requests n undecodable = err FileError.decode_failed
load_resync_requests n trailing = err FileError.trailing_content
load_resync_requests n (document d) =
    refuse (not (is_version_1 d.version)) FileError.unsupported_version
    >> refuse (ltb 32 (length d.requests)) FileError.too_many
    >> check_requests n [] d.requests
    >> ok d.requests

-- A letter or a digit of ASCII.
abbrev pub Alphanumeric : Char → Type 0
Alphanumeric c =
    ((65 ≤ code c) × (code c ≤ 90))
    ⊎ ((97 ≤ code c) × (code c ≤ 122))
    ⊎ ((48 ≤ code c) × (code c ≤ 57))

abbrev pub AllOf : (Char → Type 0) → String → Type 0
AllOf P String.[] = Unit
AllOf P (String.◌∷◌ c s) = P c × AllOf P s

-- An alphanumeric character, and at most 127 more, each of which is one, an underscore, a dot or a dash.
abbrev pub ResyncId : String → Type 0
ResyncId String.[] = ⊥
ResyncId (String.◌∷◌ c s) =
    Alphanumeric c
    × AllOf (λ d. Alphanumeric d ⊎ (code d ≡ 95) ⊎ (code d ≡ 46) ⊎ (code d ≡ 45)) s
    × (len s ≤ 127)

pub record WellNamed (n : Names) (r : ResyncRequest) : Type 0 where
  pub id : ResyncId r.id
  pub group : (r.gvr.group ≡ "") ⊎ (n.is_subdomain r.gvr.group ≡ true)
  pub version : n.is_label r.gvr.version ≡ true
  pub resource : n.is_label r.gvr.resource ≡ true

-- No id is one of the texts.
abbrev pub Apart : List String → ResyncRequest → Type 0
Apart seen r = All (λ id. r.id ≢ id) seen

-- No two requests have one id.
abbrev pub Distinct : List ResyncRequest → Type 0
Distinct [] = Unit
Distinct (r ∷ rs) = All (λ q. q.id ≢ r.id) rs × Distinct rs

pub record IsSound (n : Names) (d : Document) : Type 0 where
  pub version : d.version ≡ pos 1
  pub size : length d.requests ≤ 32
  pub named : All (WellNamed n) d.requests
  pub distinct : Distinct d.requests

abbrev AllApart : List String → List ResyncRequest → Type 0
AllApart seen rs = All (Apart seen) rs
