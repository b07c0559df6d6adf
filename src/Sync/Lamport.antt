-- ===== src/Sync/Lamport.antt =====
-- src/modules/sync/utils/lamport-clock.util.ts: the order of the timestamps. A node is the list of its
-- character codes, as strings are compared, and the counter is a whole number, as parsing leaves it.
pub mod Order
use radha_backend.Prelude.{
  ℕ, Bool, true, false, Option, none, some, List, [], ◌∷◌, ltb, if◌then◌else◌,
}

-- `LamportTimestamp`
pub record Timestamp : Type 0 where
  pub counter : ℕ
  pub node_id : List ℕ

-- the results -1, 0 and 1
pub data Comparison : Type 0 where
  older same newer : Comparison

-- `<` and `>` on strings
unfoldable pub compare_text : List ℕ → List ℕ → Comparison
compare_text [] [] = same
compare_text [] (b ∷ t) = older
compare_text (a ∷ s) [] = newer
compare_text (a ∷ s) (b ∷ t) =
    let rest = compare_text s t in if ltb a b then older else if ltb b a then newer else rest

-- `compareLamport`
unfoldable pub compare_lamport : Option Timestamp → Option Timestamp → Comparison
compare_lamport none none = same
compare_lamport none (some b) = older
compare_lamport (some a) none = newer
compare_lamport (some a) (some b) =
    if ltb a.counter b.counter
    then older
    else if ltb b.counter a.counter
    then newer
    else compare_text a.node_id b.node_id

abbrev pub is_newer : Comparison → Bool
is_newer newer = true
is_newer older = false
is_newer same = false

abbrev pub is_older : Comparison → Bool
is_older older = true
is_older newer = false
is_older same = false

-- `lamportWins`
unfoldable pub lamport_wins : Option Timestamp → Option Timestamp → Bool
lamport_wins incoming current = is_newer (compare_lamport incoming current)
