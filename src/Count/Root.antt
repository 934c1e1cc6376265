-- ===== src/Count/Root.antt =====
-- The hash list root that `AddConsideration` keeps is the one that is computed from scratch.
use focal_point.Prelude.{
  ◌+◌, ◌≡◌, refl, List, [], ◌∷◌, ◌++◌, ok, ◌>>=◌, >>=-eq-ok, arith, ℤ, pos, ◌<◌, ◌^◌, length,
  length-append, wrap32, ◌+ℤ◌,
}
use focal_point.Consideration.{Consideration, ConsiderationId, consideration_id}
use focal_point.Count.{
  Count, Hashing, ids_of, compute_hash_list_root, add_countpoint_to_hash_list_root, root_with,
  add_consideration,
}

module _ (hashing : Hashing) where
  ids_of-append :
      (cns : List Consideration) (cn : Consideration) (ids : List ConsiderationId)
      (id : ConsiderationId)
      → ids_of hashing cns ≡ ok ids
      → consideration_id hashing.crypto cn ≡ ok id
      → ids_of hashing (cns ++ cn ∷ []) ≡ ok (ids ++ id ∷ [])
  unfolding ids_of
  ids_of-append [] cn ids id h e = ground arith
  ids_of-append (c ∷ cns) cn ids id h e =
      let (i, ei, k) =
        >>=-eq-ok (consideration_id hashing.crypto c)
          (λ i. ids_of hashing cns >>= λ is. ok (i ∷ is)) {b = ids} h in
      let (is, eis, last) = >>=-eq-ok (ids_of hashing cns) (λ is. ok (i ∷ is)) {b = ids} k in
      ground (arith, ids_of-append cns cn is id eis e)

  -- The header carries the root and the number of the considerations, and the hasher the rest of the
  -- identifiers: what `NewCount` makes.
  pub record IsRooted (count : Count) : Type 0 where
    pub rooted :
        compute_hash_list_root hashing [] count.considerations
        ≡ ok (count.header.hash_list_root, count.hasher)
    pub counted : count.header.consideration_count ≡ pos (length count.considerations)

  wrap_count :
      (cns : List Consideration) (n : ℤ) (cn : Consideration)
      → length cns + 1 < 2 ^ 31
      → n ≡ pos (length cns)
      → wrap32 (n +ℤ pos 1) ≡ pos (length (cns ++ cn ∷ []))
  unfolding wrap32 ◌+ℤ◌
  wrap_count cns n cn room e = ground (arith, length-append cns (cn ∷ []))

  -- One more identifier in the hasher is one more consideration under the root.
  root_step :
      (cns : List Consideration) (hasher : List ConsiderationId) (root id : ConsiderationId)
      (cn : Consideration)
      → compute_hash_list_root hashing [] cns ≡ ok (root, hasher)
      → consideration_id hashing.crypto cn ≡ ok id
      → (root' : ConsiderationId) × (root_with hashing (hasher ++ id ∷ []) cns ≡ ok root')
        × (compute_hash_list_root hashing [] (cns ++ cn ∷ []) ≡ ok (root', hasher ++ id ∷ []))
  unfolding compute_hash_list_root root_with add_countpoint_to_hash_list_root
  root_step [] hasher root id cn h e = absurd (ground arith)
  root_step (countpoint ∷ cns) hasher root id cn h e =
      let (ids, ei, k) =
        >>=-eq-ok (ids_of hashing cns)
          (λ ids.
            add_countpoint_to_hash_list_root hashing ids countpoint >>= λ root. ok (root, ids))
          {b = (root, hasher)} h in
      let (r, er, last) =
        >>=-eq-ok (add_countpoint_to_hash_list_root hashing ids countpoint) (λ root. ok (root, ids))
          {b = (root, hasher)} k in
      let (i, ec, _) =
        >>=-eq-ok (consideration_id hashing.crypto countpoint)
          (λ i. ok (hashing.hash_ids (i ∷ hashing.hash_ids ids ∷ []))) {b = r} er in
      let same : ids ≡ hasher = ground arith in
      let ei' : ids_of hashing cns ≡ ok hasher = ground arith in
      (
        hashing.hash_ids (i ∷ hashing.hash_ids (hasher ++ id ∷ []) ∷ []),
        ground arith,
        rw (ids_of-append cns cn hasher id ei' e, ec, ◌>>=◌),
      )

  -- `AddConsideration` of a consideration under its own identifier, to a count whose root, number and
  -- running hash are those that its list gives and which holds fewer than 2^31 - 1, returns no error.
  -- It puts the consideration last, and root, number and running hash are again those that the longer
  -- list gives.
  pub add_consideration-IsRooted :
      (id : ConsiderationId) (cn : Consideration) (count : Count)
      → consideration_id hashing.crypto cn ≡ ok id
      → length count.considerations + 1 < 2 ^ 31
      → IsRooted count
      → (count' : Count) × (add_consideration hashing id cn count ≡ (ok tt, count'))
        × (count'.considerations ≡ count.considerations ++ cn ∷ [])
        × IsRooted count'
  unfolding add_consideration
  add_consideration-IsRooted id cn count e room r =
      let (root, er, ec) =
        root_step count.considerations count.hasher count.header.hash_list_root id cn r.rooted e in
      (
        record count {
          header = record (count.header) {
            hash_list_root = root;
            consideration_count = wrap32 (count.header.consideration_count +ℤ pos 1);
          };
          considerations = count.considerations ++ cn ∷ [];
          hasher = count.hasher ++ id ∷ [];
        },
        rw (er, add_consideration),
        refl,
        record {
          rooted = ec;
          counted =
              wrap_count count.considerations count.header.consideration_count cn room r.counted;
        },
      )
