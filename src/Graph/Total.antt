-- ===== src/Graph/Total.antt =====
-- The test of a consideration against the graph always answers.
use focal_point.Prelude.{
  ◌≡◌, refl, Bool, false, ◌||◌, none, some, Bytes, ok, arith, Option-cases, Bool-cases, inl, inr,
  lookup, bytes_eq, nat_eq, ◌==◌,
}
use focal_point.Consideration.{Consideration, PublicKey}
use focal_point.Utils.{pub_key_to_string, pad44, slashed, contains_byte, base64}
use focal_point.Graph.{Graph, is_parent_descendant, sender_descends}
use focal_point.Graph.Reach.{is_parent_descendant_decides}

is_parent_descendant_total :
    {W : Type 0} (g : Graph W) (parent descendant : Bytes)
    → (found : Bool) × (is_parent_descendant g parent descendant ≡ some found)
unfolding is_parent_descendant
is_parent_descendant_total g parent descendant = elim (Option-cases (lookup parent g.index)) [
  | inl e ↦ (false, ground arith)
  | inr (p, ep) ↦ elim (Option-cases (lookup descendant g.index)) [
    | inl e ↦ (false, ground arith)
    | inr (d, ed) ↦ elim (Bool-cases (p == 0 || d == 0)) [
      | inl root ↦ (false, ground arith)
      | inr inner ↦
          let (found, e, _) =
            is_parent_descendant_decides g parent descendant p d ep ed (ground arith)
              (ground arith) in
          (found, e)
    ]
  ]
]

pub_key_to_string_total : (key : PublicKey) → (text : Bytes) × (pub_key_to_string key ≡ ok text)
unfolding pub_key_to_string pad44 slashed contains_byte
pub_key_to_string_total none = (_, refl)
pub_key_to_string_total (some key) = (base64 key, refl)

pub sender_descends_total :
    {W : Type 0} (g : Graph W) (cn : Consideration)
    → (answer : Bool) × (sender_descends g cn ≡ ok answer)
unfolding sender_descends
sender_descends_total g cn =
    let (recipient, er) = pub_key_to_string_total cn.for in
    let (sender, es) = pub_key_to_string_total cn.by in
    let (answer, e) = is_parent_descendant_total g recipient sender in (answer, ground arith)
