-- ===== src/PeerStorage/Reached.antt =====
-- The states that calls of peer_storage_disk.go reach, of which many may be under way at a time.
use focal_point.Prelude.{
  ◌≡◌, ◌≢◌, refl, sym, ◌∙◌, subst, Bool-cases, inl, inr, none, some, List, [], ◌∷◌, ◌++◌, Bytes, ok,
  All, bytes_equal, bytes_equal_iff, arith, Option,
}
use focal_point.LevelDb.{IsLevelDb, Write}
use focal_point.PeerStorage.Info.{PeerInfo, compute_peer_key}
use focal_point.PeerStorage.Disk.{PeerStorageDisk, get_peer_info}
use focal_point.PeerStorage.Consistent.{IsConsistent, Changes, Changes-IsConsistent}
use focal_point.PeerStorage.Calls.{IsGob}
use focal_point.PeerStorage.Reads.{Call, party, reads, reads-same, reads-Changes}

-- A call that has read and is still to write: its address and its batch.
abbrev pub Writing : Type 0
Writing = Bytes × List Write

-- Calls read and write in any order, as long as the address of a call that reads is not that of one
-- that is still to write. A call that returns without a write, with an error or not, is no step.
pub data Reached {D : Type 0} (p : PeerStorageDisk D) : D → List Writing → Type 0 where
  empty : {d : D} → ((key : Bytes) → p.db.get key d ≡ ok none) → Reached p d []
  read :
      {d : D} {pending : List Writing}
      → (call : Call) (batch : List Write) → Reached p d pending
      → All (λ (w : Writing). w.0 ≢ party call) pending
      → reads p call d ≡ ok (some batch)
      → Reached p d ((party call, batch) ∷ pending)
  written :
      {d d' : D} {pending : List Writing}
      → (before after : List Writing) (addr : Bytes) (batch : List Write)
      → Reached p d (before ++ (addr, batch) ∷ after)
      → p.db.write batch d ≡ (ok tt, d')
      → pending ≡ before ++ after
      → Reached p d' pending

-- No two have the same address.
abbrev Apart : List Writing → Type 0
Apart [] = Unit
Apart (w ∷ ws) = All (λ (v : Writing). v.0 ≢ w.0) ws × Apart ws

middle :
    (P : Writing → Type 0) (before after : List Writing) (w : Writing)
    → All P (before ++ w ∷ after)
    → P w
middle P [] after w all = all.0
middle P (v ∷ before) after w all = middle P before after w all.1

sides :
    (P : Writing → Type 0) (before after : List Writing) (w : Writing)
    → All P (before ++ w ∷ after)
    → All P (before ++ after)
sides P [] after w all = all.1
sides P (v ∷ before) after w all = (all.0, sides P before after w all.1)

-- What holds of all, and moves to what does not have the address of the one that is taken out.
others_move :
    (P Q : Writing → Type 0) (before after : List Writing) (w : Writing)
    → ((v : Writing) → v.0 ≢ w.0 → P v → Q v)
    → All P (before ++ w ∷ after)
    → Apart (before ++ w ∷ after)
    → All Q (before ++ after) × Apart (before ++ after)
others_move P Q [] after w move all apart = (each after all.1 apart.0, apart.1)
  where
    each : (ws : List Writing) → All P ws → All (λ (v : Writing). v.0 ≢ w.0) ws → All Q ws
    each [] h k = tt
    each (v ∷ ws) h k = (move v k.0 h.0, each ws h.1 k.1)
others_move P Q (v ∷ before) after w move all apart =
    let differs = middle (λ (u : Writing). u.0 ≢ v.0) before after w apart.0 in
    let (moved, still) = others_move P Q before after w move all.1 apart.1 in
    (
      (move v (λ e. differs (sym e)) all.0, moved),
      (sides (λ (u : Writing). u.0 ≢ v.0) before after w apart.0, still),
    )

module _ {D : Type 0} (p : PeerStorageDisk D) (is : IsLevelDb p.db) (is_gob : IsGob p.gob) where
  -- The batch is the one that the call would prepare now.
  Current : D → Writing → Type 0
  Current d w = (call : Call) × (party call ≡ w.0) × (reads p call d ≡ ok (some w.1))

  record Holds (d : D) (pending : List Writing) : Type 0 where
    consistent : IsConsistent p d
    current : All (Current d) pending
    apart : Apart pending

  -- What another call writes leaves a call with the batch that it has.
  stays-Current :
      (addr : Bytes) (old new : Option PeerInfo) (d d' : D)
      → Changes p addr old new d d'
      → (w : Writing) → w.0 ≢ addr
      → Current d w
      → Current d' w
  unfolding Current
  stays-Current addr old new d d' c w differs (call, same, h) = (
    call,
    same,
    reads-same p d d' call (elim (Bool-cases (bytes_equal addr (party call))) [
      | inl e ↦ absurd (differs (sym same ∙ sym ((bytes_equal_iff addr (party call)).0 e)))
      | inr other ↦ ground (arith, c.infos (party call), other)
    ])
        ∙ h,
  )

  written-Holds :
      (before after : List Writing) (addr : Bytes) (batch : List Write) (d d' : D)
      → Holds d (before ++ (addr, batch) ∷ after)
      → p.db.write batch d ≡ (ok tt, d')
      → Holds d' (before ++ after)
  unfolding Current
  written-Holds before after addr batch d d' h w =
      let (call, same, prepared) = middle (Current d) before after (addr, batch) h.current in
      let (old, new, c) = reads-Changes p is is_gob d d' h.consistent call batch prepared w in
      let (current, apart) =
        others_move (Current d) (Current d') before after (addr, batch)
          (λ v differs. stays-Current (party call) old new d d' c v (λ e. differs (e ∙ same)))
          h.current h.apart in
      record {
        consistent = Changes-IsConsistent p (party call) old new d d' c h.consistent;
        current = current;
        apart = apart;
      }

  Reached-Holds : (d : D) (pending : List Writing) → Reached p d pending → Holds d pending
  unfolding Current get_peer_info
  Reached-Holds d _ (empty none_stored) = record {
    consistent = record {
      attempted = λ addr info h. absurd (ground (arith, none_stored (compute_peer_key addr)));
      known = λ key (v, listed). absurd (ground (arith, none_stored (b'a' ∷ key)));
    };
    current = tt;
    apart = tt;
  }
  Reached-Holds d _ (read {pending = others} call batch reached differs h) =
      let before = Reached-Holds d others reached in
      record {
        consistent = before.consistent;
        current = ((call, refl, h), before.current);
        apart = (differs, before.apart);
      }
  Reached-Holds d pending (written {d = was} before after addr batch reached w e) =
      subst (Holds d) (sym e) (
        written-Holds before after addr batch was d
          (Reached-Holds was (before ++ (addr, batch) ∷ after) reached) w)

-- In every state that calls reach from an empty database, each stored peer is listed at the time of
-- its last attempt, and every key of that table is the key of a stored peer at the time of its last
-- attempt. Any number of calls may be under way, in any order of their reads and writes, if no two at
-- a time are on the same address and the writes succeed.
pub Reached-IsConsistent :
    {D : Type 0}
    → (p : PeerStorageDisk D) → IsLevelDb p.db
    → IsGob p.gob
    → (d : D) (pending : List Writing) → Reached p d pending
    → IsConsistent p d
Reached-IsConsistent p is is_gob d pending reached =
    (Reached-Holds p is is_gob d pending reached).consistent
