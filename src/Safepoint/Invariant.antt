-- ===== src/Safepoint/Invariant.antt =====
-- What every step of src/safepoint.rs and src/threading.rs keeps.
use libimmixcons.Base.{
  ℕ, ◌<◌, ◌≡◌, ◌≢◌, refl, sym, ◌∙◌, Bool, true, false, Option, none, some, List, [], ◌==◌,
  if◌then◌else◌, count, ℕ_discrete, arith,
}
use libimmixcons.Safepoint.{
  Place, outside, gone, managed, resumed, safe, checking, waiting, leaving, starting, blocked,
  started, stopping, collecting, ended, holding, given_up, enabling, enabled, ending, releasing,
  restoring, World,
}

-- Between the exchange that starts a collection and the store that ends it.
abbrev pub is_active : Place → Bool
is_active started = true
is_active (stopping pending) = true
is_active collecting = true
is_active outside = false
is_active gone = false
is_active managed = false
is_active resumed = false
is_active safe = false
is_active checking = false
is_active waiting = false
is_active leaving = false
is_active starting = false
is_active blocked = false
is_active ended = false
is_active holding = false
is_active given_up = false
is_active enabling = true
is_active enabled = true
is_active ending = true
is_active releasing = false
is_active restoring = false

-- Has the lock of the list of threads.
abbrev pub is_holder : Place → Bool
is_holder (stopping pending) = true
is_holder collecting = true
is_holder ended = true
is_holder started = false
is_holder outside = false
is_holder gone = false
is_holder managed = false
is_holder resumed = false
is_holder safe = false
is_holder checking = false
is_holder waiting = false
is_holder leaving = false
is_holder starting = false
is_holder blocked = false
is_holder holding = false
is_holder given_up = false
is_holder enabling = false
is_holder enabled = false
is_holder ending = true
is_holder releasing = true
is_holder restoring = false

-- The threads that a collector has yet to see.
abbrev pub pending_of : Place → Option (List ℕ)
pending_of (stopping pending) = some pending
pending_of collecting = some []
pending_of ended = none
pending_of started = none
pending_of outside = none
pending_of gone = none
pending_of managed = none
pending_of resumed = none
pending_of safe = none
pending_of checking = none
pending_of waiting = none
pending_of leaving = none
pending_of starting = none
pending_of blocked = none
pending_of holding = none
pending_of given_up = none
pending_of enabling = none
pending_of enabled = none
pending_of ending = some []
pending_of releasing = none
pending_of restoring = none

pub record Inv (w : World) : Type 0 where
  pub active_running : (t : ℕ) → is_active (w.place t) ≡ true → w.running ≡ true
  pub one_active : (t u : ℕ) → is_active (w.place t) ≡ true → is_active (w.place u) ≡ true → t ≡ u
  pub holder_locked : (t : ℕ) → is_holder (w.place t) ≡ true → w.locked ≡ true
  pub one_holder : (t u : ℕ) → is_holder (w.place t) ≡ true → is_holder (w.place u) ≡ true → t ≡ u
  pub seen_stopped :
      (c t : ℕ) (pending : List ℕ)
      → pending_of (w.place c) ≡ some pending
      → 0 < count t w.threads
      → t ≢ c
      → count t pending ≡ 0
      → w.place t ≢ managed

-- A collector that looks at threads is active and has the lock.
pub pending-is_active : (p : Place) (l : List ℕ) → pending_of p ≡ some l → is_active p ≡ true
pending-is_active (stopping pending) l e = refl
pending-is_active collecting l e = refl
pending-is_active ended l e = cc
pending-is_active started l e = cc
pending-is_active outside l e = cc
pending-is_active gone l e = cc
pending-is_active managed l e = cc
pending-is_active resumed l e = cc
pending-is_active safe l e = cc
pending-is_active checking l e = cc
pending-is_active waiting l e = cc
pending-is_active leaving l e = cc
pending-is_active starting l e = cc
pending-is_active blocked l e = cc
pending-is_active holding l e = cc
pending-is_active given_up l e = cc
pending-is_active enabling l e = cc
pending-is_active enabled l e = cc
pending-is_active ending l e = refl
pending-is_active releasing l e = cc
pending-is_active restoring l e = cc

-- `SAFEPOINT_LOCK` has no part in it.
pub Inv-start_locked : {w : World} → Inv w → (b : Bool) → Inv (record w { start_locked = b })
Inv-start_locked v b = record {
  active_running = v.active_running;
  one_active = v.one_active;
  holder_locked = v.holder_locked;
  one_holder = v.one_holder;
  seen_stopped = v.seen_stopped;
}

-- One thread moves to the place `q`, and the shared fields change.
module _ {w : World} (v : Inv w) (t : ℕ) (q : Place) (w' : World)
    (at : (u : ℕ) → w'.place u ≡ (if u == t then q else w.place u)) where
  at_self : w'.place t ≡ q
  at_self = at t ∙ ground arith

  at_other : (u : ℕ) → u ≢ t → w'.place u ≡ w.place u
  at_other u ne = at u ∙ rw (differs u ne) refl
    where
      differs : (u : ℕ) → u ≢ t → (u == t) ≡ false
      differs u ne = ground arith

  pub Inv-moved :
      (is_active q ≡ true
        → (w'.running ≡ true) × ((u : ℕ) → u ≢ t → is_active (w.place u) ≡ true → ⊥))
      → ((u : ℕ) → u ≢ t → is_active (w.place u) ≡ true → w'.running ≡ true)
      → (is_holder q ≡ true
          → (w'.locked ≡ true) × ((u : ℕ) → u ≢ t → is_holder (w.place u) ≡ true → ⊥))
      → ((u : ℕ) → u ≢ t → is_holder (w.place u) ≡ true → w'.locked ≡ true)
      → ((pending : List ℕ)
          → pending_of q ≡ some pending
          → (u : ℕ) → 0 < count u w'.threads
          → u ≢ t
          → count u pending ≡ 0
          → w.place u ≢ managed)
      → ((c : ℕ) (pending : List ℕ)
          → pending_of (w.place c) ≡ some pending
          → c ≢ t
          → (q ≢ managed) × ((u : ℕ) → u ≢ t → 0 < count u w'.threads → 0 < count u w.threads))
      → Inv w'
  Inv-moved active others holder held seen known = record {
    active_running = λ u a. elim (ℕ_discrete u t) [
      | yes e ↦ (active (rw (e, at_self) at a)).0
      | no ne ↦ others u ne (rw (at_other u ne) at a)
    ];
    one_active = λ u u' a a'. elim (ℕ_discrete u t) [
      | yes e ↦ elim (ℕ_discrete u' t) [
        | yes e' ↦ e ∙ sym e'
        | no ne' ↦ absurd ((active (rw (e, at_self) at a)).1 u' ne' (rw (at_other u' ne') at a'))
      ]
      | no ne ↦ elim (ℕ_discrete u' t) [
        | yes e' ↦ absurd ((active (rw (e', at_self) at a')).1 u ne (rw (at_other u ne) at a))
        | no ne' ↦ v.one_active u u' (rw (at_other u ne) at a) (rw (at_other u' ne') at a')
      ]
    ];
    holder_locked = λ u a. elim (ℕ_discrete u t) [
      | yes e ↦ (holder (rw (e, at_self) at a)).0
      | no ne ↦ held u ne (rw (at_other u ne) at a)
    ];
    one_holder = λ u u' a a'. elim (ℕ_discrete u t) [
      | yes e ↦ elim (ℕ_discrete u' t) [
        | yes e' ↦ e ∙ sym e'
        | no ne' ↦ absurd ((holder (rw (e, at_self) at a)).1 u' ne' (rw (at_other u' ne') at a'))
      ]
      | no ne ↦ elim (ℕ_discrete u' t) [
        | yes e' ↦ absurd ((holder (rw (e', at_self) at a')).1 u ne (rw (at_other u ne) at a))
        | no ne' ↦ v.one_holder u u' (rw (at_other u ne) at a) (rw (at_other u' ne') at a')
      ]
    ];
    seen_stopped = λ c u pending p h ne k. elim (ℕ_discrete c t) [
      | yes e ↦
          let ne' : u ≢ t = rw e at ne in
          rw (at_other u ne') (seen pending (rw (e, at_self) at p) u h ne' k)
      | no other ↦
          let p' = rw (at_other c other) at p in
          let (q_stopped, registered) = known c pending p' other in
          elim (ℕ_discrete u t) [
            | yes e ↦ rw (e, at_self) q_stopped
            | no ne' ↦ rw (at_other u ne') (v.seen_stopped c u pending p' (registered u ne' h) ne k)
          ]
    ];
  }
