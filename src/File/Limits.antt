-- ===== src/File/Limits.antt =====
-- The limits on metadata (file.go): `checkRoot`, `checkCount`, `nodeBudget`, `copyText` and
-- `recoverParse`. The budget is the state of an action; a parser that has refused does not go on, so
-- what a refusal leaves of the budget does not matter.
use vortex_go.Base.{
  ℕ, ◌+◌, ◌-◌, ◌*◌, ◌/◌, ◌^◌, String, ◌||◌, List, length, ltb, ◌==◌, if◌then◌else◌,
}
use vortex_go.Outcome.{Error, Result, ok, err, invalid, panic, refuse, Action}
use vortex_go.Encoding.Word.{read_little}
use vortex_go.File.Tables.{Text}

abbrev pub max_metadata : ℕ
max_metadata = 64 * 2 ^ 20

abbrev pub max_segment : ℕ
max_segment = 256 * 2 ^ 20

abbrev pub max_depth : ℕ
max_depth = 64

abbrev pub max_nodes : ℕ
max_nodes = 2 ^ 20

-- checkRoot
unfoldable pub check_root : List ℕ → Result (Unit {0})
unfolding read_little
check_root b =
    refuse (ltb (length b) 8 || ltb (length b - 4) (read_little b 4))
      (invalid "truncated FlatBuffer")

-- checkCount; the accessors' lengths are never negative
unfoldable pub check_count : (n bytes stride : ℕ) → Result (Unit {0})
check_count n bytes stride =
    refuse (ltb max_nodes n || ltb (bytes / stride) n) (invalid "metadata vector length")

-- nodeBudget at a depth within the limit: one node less
unfoldable pub node_budget : Action ℕ (Unit {0})
node_budget budget =
    if budget == 0 then (err (invalid "metadata nesting or node count"), 0) else (ok tt, budget - 1)

-- copyText
unfoldable pub copy_text : Text → Action ℕ String
copy_text t budget =
    if ltb budget ((t.size + 63) / 64)
    then (err (invalid "metadata text budget"), budget)
    else (ok t.text, budget - (t.size + 63) / 64)

recovered_parse : Error → Error
recovered_parse panic = invalid "malformed metadata"
recovered_parse e = e

-- recoverParse
unfoldable pub recover_parse : {A : Type 0} → Result A → Result A
unfolding recovered_parse
recover_parse (ok a) = ok a
recover_parse (err e) = err (recovered_parse e)
