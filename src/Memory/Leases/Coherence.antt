-- ===== src/Memory/Leases/Coherence.antt =====
-- The leases of the in-memory store never disagree: whoever caches writes of a file caches alone.
use text.Mathlib.TextEquality.{eq_iff}
use rustsmb.Base.{
  ℕ, ◌^◌, ◌<◌, ◌≡◌, ◌≢◌, sym, subst, ap, ◌∙◌, String, inl, inr, some, In, All-In, In-filterb_iff,
  string_key, arith,
}
use rustsmb.Base.Map.{get, insert, values, IsMap, IsMap-insert, insert_cases, get-In}
use rustsmb.State.Lease.{LeaseEntry, judge}
use rustsmb.State.Lease.Compatible.{Compatible}
use rustsmb.State.Lease.Judge.{judge-AllCompatible}
use rustsmb.Memory.{MemoryStateStore}
use rustsmb.Memory.Leases.{others, check_and_create_lease}

-- Each lease stands under its own key, and any two leases on one file are compatible.
pub record IsCoherent (s : MemoryStateStore) : Type 0 where
  pub is_map : IsMap s.leases
  pub keyed : (k : String) (l : LeaseEntry) → get k s.leases ≡ some l → l.lease_key ≡ k
  pub compatible :
      (i j : String) (a b : LeaseEntry)
      → get i s.leases ≡ some a
      → get j s.leases ≡ some b
      → i ≢ j
      → a.file_path ≡ b.file_path
      → Compatible a.lease_state b.lease_state

module _ (s : MemoryStateStore) (c : IsCoherent s) where
  -- The lease at another key of the file is among those that are judged.
  others-get :
      (lease : LeaseEntry) (path : String) (j : String) (b : LeaseEntry)
      → get j s.leases ≡ some b
      → lease.lease_key ≢ j
      → b.file_path ≡ path
      → In b (others path lease s)
  others-get lease path j b e d p = (In-filterb_iff _ (values s.leases) b).1 (
    get-In j s.leases b e,
    ground (arith, c.keyed j b, eq_iff b.file_path path, eq_iff b.lease_key lease.lease_key),
  )

  granted-Compatible :
      (lease : LeaseEntry) (path : String) (r : ℕ) (j : String) (b : LeaseEntry)
      → r < 2 ^ 32
      → get j s.leases ≡ some b
      → lease.lease_key ≢ j
      → b.file_path ≡ path
      → Compatible b.lease_state (judge (others path lease s) r).granted_state
  granted-Compatible lease path r j b h e d p =
      All-In
        (λ (l : LeaseEntry). Compatible l.lease_state (judge (others path lease s) r).granted_state)
        (others path lease s) (judge-AllCompatible (others path lease s) r h)
        (others-get lease path j b e d p)

  -- A lease may be stored if it is compatible with the others on its file.
  pub IsCoherent-insert :
      (l : LeaseEntry)
      → ((j : String) (b : LeaseEntry)
          → get j s.leases ≡ some b
          → l.lease_key ≢ j
          → b.file_path ≡ l.file_path
          → Compatible b.lease_state l.lease_state)
      → IsCoherent (record s { leases = insert l.lease_key l s.leases })
  IsCoherent-insert l fits = record {
    is_map = IsMap-insert l.lease_key l s.leases c.is_map;
    keyed = λ k w e. elim (insert_cases l.lease_key k l w s.leases e) [
      | inl (p, q) ↦ sym (ap (λ (x : LeaseEntry). x.lease_key) q) ∙ p
      | inr (p, q) ↦ c.keyed k w q
    ];
    compatible = λ i j a b ea eb d p. elim (insert_cases l.lease_key i l a s.leases ea) [
      | inl (pi, qi) ↦ elim (insert_cases l.lease_key j l b s.leases eb) [
        | inl (pj, qj) ↦ absurd (d (sym pi ∙ pj))
        | inr (pj, qj) ↦
            let old = fits j b qj pj (sym p ∙ sym (ap (λ (x : LeaseEntry). x.file_path) qi)) in
            subst (λ (x : LeaseEntry). Compatible x.lease_state b.lease_state) qi (old.1, old.0)
      ]
      | inr (pi, qi) ↦ elim (insert_cases l.lease_key j l b s.leases eb) [
        | inl (pj, qj) ↦
            let old = fits i a qi pi (p ∙ sym (ap (λ (x : LeaseEntry). x.file_path) qj)) in
            subst (λ (x : LeaseEntry). Compatible a.lease_state x.lease_state) qj old
        | inr (pj, qj) ↦ c.compatible i j a b qi qj d p
      ]
    ];
  }

  -- Whatever 32-bit state is asked for, the leases stay coherent: the new lease is stored with a
  -- state that is compatible with the others on its file.
  pub check_and_create_lease-IsCoherent :
      (lease : LeaseEntry) (r : ℕ)
      → r < 2 ^ 32
      → IsCoherent (check_and_create_lease lease.file_path lease r s).1
  unfolding check_and_create_lease
  check_and_create_lease-IsCoherent lease r h =
      IsCoherent-insert _ (λ j b e d p. granted-Compatible lease lease.file_path r j b h e d p)
