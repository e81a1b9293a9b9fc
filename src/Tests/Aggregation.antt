-- ===== src/Tests/Aggregation.antt =====
-- Two resources of a business process.
use icinga_kubernetes.Common.{◌≡◌, length, List, [], ◌∷◌}
use icinga_kubernetes.Model.{State, Resource}
use icinga_kubernetes.Api.Aggregate.{aggregate, aggregate_counts, count_states}
use icinga_kubernetes.Api.Aggregate.Counts.{aggregate_counts_lem}
use icinga_kubernetes.Tests.Data.{pod}

abbrev items : List Resource
items = pod ∷ record pod { id = "m"; state = State.unknown } ∷ []

aggregate_counts_lem_example :
    aggregate_counts (count_states items) (length items) "and" ≡ aggregate items "and"
aggregate_counts_lem_example = aggregate_counts_lem items "and" (tt, (tt, tt))
