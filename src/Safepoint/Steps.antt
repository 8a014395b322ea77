-- ===== src/Safepoint/Steps.antt =====
-- Each step of src/safepoint.rs and src/threading.rs keeps the invariant.
use libimmixcons.Base.{
  ℕ, ◌≡◌, ◌≢◌, refl, Bool, true, false, none, some, List, [], ◌∷◌, push, count, ℕ_discrete, arith,
  inl, inr, ◌⊎◌,
}
use libimmixcons.Safepoint.{
  Place, outside, gone, managed, resumed, safe, checking, waiting, leaving, starting, blocked,
  started, stopping, collecting, ended, holding, given_up, enabling, enabled, ending, releasing,
  restoring, lock_start, stop_waiting, enable, unlock_start, lock_end, unlock_end, unlock, World,
  move, retain_others, Step, registry_step, yield_step, wait_step, collector_step, register,
  register_again, unregister, enter_safe, leave_safe, yield, check_stops, check_goes, wait_over,
  resume, begin, start, start_fails, give_up, lock, skip_self, see_stopped, all_stopped, end,
  restore,
}
use libimmixcons.Safepoint.Invariant.{
  is_active, is_holder, pending_of, Inv, pending-is_active, Inv-moved, Inv-start_locked,
}

not_both : {b : Bool} → b ≡ true → b ≡ false → ⊥
not_both h k = cc (h, k)

count-retain_others : (u t : ℕ) (l : List ℕ) → u ≢ t → count u (retain_others t l) ≡ count u l
count-retain_others u t [] ne = refl
count-retain_others u t (x ∷ xs) ne = ground (arith, count-retain_others u t xs ne)

module _ {w : World} (v : Inv w) where
  -- A collector that looks at threads has started a collection and holds the lock.
  no_collector_idle : w.running ≡ false → (c : ℕ) (l : List ℕ) → pending_of (w.place c) ≡ some l → ⊥
  no_collector_idle r c l p = not_both (v.active_running c (pending-is_active (w.place c) l p)) r

  pending-is_holder : (p : Place) (l : List ℕ) → pending_of p ≡ some l → is_holder p ≡ true
  pending-is_holder (stopping pending) l e = refl
  pending-is_holder collecting l e = refl
  pending-is_holder ended l e = cc
  pending-is_holder started l e = cc
  pending-is_holder outside l e = cc
  pending-is_holder gone l e = cc
  pending-is_holder managed l e = cc
  pending-is_holder resumed l e = cc
  pending-is_holder safe l e = cc
  pending-is_holder checking l e = cc
  pending-is_holder waiting l e = cc
  pending-is_holder leaving l e = cc
  pending-is_holder starting l e = cc
  pending-is_holder blocked l e = cc
  pending-is_holder holding l e = cc
  pending-is_holder given_up l e = cc
  pending-is_holder enabling l e = cc
  pending-is_holder enabled l e = cc
  pending-is_holder ending l e = refl
  pending-is_holder releasing l e = cc
  pending-is_holder restoring l e = cc

  -- A move that has nothing to do with a collector.
  Inv-plain :
      (t : ℕ) (q : Place)
      → is_active q ≡ false
      → is_holder q ≡ false
      → (q ≢ managed) ⊎ (w.running ≡ false)
      → Inv (move w t q)
  Inv-plain t q a h m =
      Inv-moved v t q (move w t q) (λ u. refl) (λ k. absurd (not_both k a))
        (λ u ne k. v.active_running u k) (λ k. absurd (not_both k h))
        (λ u ne k. v.holder_locked u k) (λ l p. absurd (not_both (pending-is_active q l p) a))
        (λ c l p ne. (stays c l p, λ u ne' k. k))
    where
      stays : (c : ℕ) (l : List ℕ) → pending_of (w.place c) ≡ some l → q ≢ managed
      stays c l p = elim m [ inl ne ↦ ne | inr r ↦ absurd (no_collector_idle r c l p) ]

  -- The list of threads changes when no thread holds its lock.
  Inv-list :
      (t : ℕ) (q : Place) (threads : List ℕ)
      → w.locked ≡ false
      → is_active q ≡ false
      → is_holder q ≡ false
      → Inv (record (move w t q) { threads = threads })
  Inv-list t q threads free a h =
      Inv-moved v t q (record (move w t q) { threads = threads }) (λ u. refl)
        (λ k. absurd (not_both k a)) (λ u ne k. v.active_running u k) (λ k. absurd (not_both k h))
        (λ u ne k. v.holder_locked u k) (λ l p. absurd (not_both (pending-is_active q l p) a))
        (λ c l p ne. absurd (not_both (v.holder_locked c (pending-is_holder (w.place c) l p)) free))

  -- A collector that has the lock of the list, or has started, goes on and does not look at threads.
  Inv-on :
      (t : ℕ) (q : Place)
      → is_active (w.place t) ≡ true
      → is_active q ≡ true
      → is_holder q ≡ false
      → pending_of q ≡ none
      → Inv (move w t q)
  Inv-on t q active a h p =
      Inv-moved v t q (move w t q) (λ u. refl)
        (λ k. (v.active_running t active, λ u ne k'. ne (v.one_active u t k' active)))
        (λ u ne k. v.active_running u k) (λ k. absurd (not_both k h))
        (λ u ne k. v.holder_locked u k) (λ l p'. absurd cc)
        (λ c l p' ne. absurd (ne (v.one_active c t (pending-is_active (w.place c) l p') active)))

  -- A collector that holds the lock goes on to `q`, with less to see.
  Inv-look :
      (t : ℕ) (q : Place) (l l' : List ℕ)
      → pending_of (w.place t) ≡ some l
      → is_active q ≡ true
      → is_holder q ≡ true
      → pending_of q ≡ some l'
      → ((u : ℕ) → u ≢ t → count u l' ≡ 0 → (count u l ≡ 0) ⊎ (w.place u ≢ managed))
      → Inv (move w t q)
  Inv-look t q l l' e a h p less =
      let active : is_active (w.place t) ≡ true = pending-is_active (w.place t) l e in
      let holder : is_holder (w.place t) ≡ true = pending-is_holder (w.place t) l e in
      Inv-moved v t q (move w t q) (λ u. refl)
        (λ k. (v.active_running t active, λ u ne k'. ne (v.one_active u t k' active)))
        (λ u ne k. v.active_running u k)
        (λ k. (v.holder_locked t holder, λ u ne k'. ne (v.one_holder u t k' holder)))
        (λ u ne k. v.holder_locked u k)
        (λ pending p' u registered ne k.
          let same : l' ≡ pending = cc in
          elim (less u ne (rw same k)) [
            | inl seen ↦ v.seen_stopped t u l e registered ne seen
            | inr m ↦ m
          ])
        (λ c pending p' ne.
          absurd (ne (v.one_active c t (pending-is_active (w.place c) pending p') active)))

  pub Step-Inv : {w' : World} → Step w w' → Inv w'
  Step-Inv (registry_step (register t e free)) =
      Inv-list t managed (push w.threads t) free refl refl
  Step-Inv (registry_step (register_again t e free)) = v
  Step-Inv (registry_step (unregister t e free)) =
      Inv-list t gone (retain_others t w.threads) free refl refl
  Step-Inv (yield_step (enter_safe t e)) = Inv-plain t safe refl refl (inl (λ k. cc))
  Step-Inv (yield_step (leave_safe t e)) = Inv-plain t checking refl refl (inl (λ k. cc))
  Step-Inv (yield_step (yield t e)) = Inv-plain t checking refl refl (inl (λ k. cc))
  Step-Inv (yield_step (check_stops t e r)) = Inv-plain t waiting refl refl (inl (λ k. cc))
  Step-Inv (yield_step (check_goes t e r)) = Inv-plain t managed refl refl (inr r)
  Step-Inv (wait_step (wait_over t e r)) = Inv-plain t leaving refl refl (inl (λ k. cc))
  Step-Inv (wait_step (resume t e)) = Inv-plain t resumed refl refl (inl (λ k. cc))
  Step-Inv (collector_step (begin t e)) = Inv-plain t starting refl refl (inl (λ k. cc))
  Step-Inv (collector_step (lock_start t e free)) =
      Inv-start_locked (Inv-plain t holding refl refl (inl (λ k. cc))) true
  Step-Inv (collector_step (start t e r)) =
      Inv-moved v t enabling (record (move w t enabling) { running = true }) (λ u. refl)
        (λ k. (refl, λ u ne k'. not_both (v.active_running u k') r)) (λ u ne k. refl) (λ k. cc)
        (λ u ne k. v.holder_locked u k) (λ l p. cc) (λ c l p ne. absurd (no_collector_idle r c l p))
  Step-Inv (collector_step (start_fails t e)) =
      Inv-start_locked (Inv-plain t blocked refl refl (inl (λ k. cc))) false
  Step-Inv (collector_step (stop_waiting t e r)) = Inv-plain t given_up refl refl (inl (λ k. cc))
  Step-Inv (collector_step (give_up t e)) = Inv-plain t checking refl refl (inl (λ k. cc))
  Step-Inv (collector_step (enable t e free)) = Inv-on t enabled (rw e refl) refl refl refl
  Step-Inv (collector_step (unlock_start t e)) =
      Inv-start_locked (Inv-on t started (rw e refl) refl refl refl) false
  Step-Inv (collector_step (lock t e free)) =
      let active : is_active (w.place t) ≡ true = rw e refl in
      Inv-moved v t (stopping w.threads) (record (move w t (stopping w.threads)) { locked = true })
        (λ u. refl) (λ k. (v.active_running t active, λ u ne k'. ne (v.one_active u t k' active)))
        (λ u ne k. v.active_running u k)
        (λ k. (refl, λ u ne k'. not_both (v.holder_locked u k') free)) (λ u ne k. refl)
        (λ pending p u registered ne k.
          let same : w.threads ≡ pending = cc in absurd (omega (arith, rw same at registered, k)))
        (λ c l p ne. absurd (not_both (v.holder_locked c (pending-is_holder (w.place c) l p)) free))
  Step-Inv (collector_step (skip_self t rest e)) =
      Inv-look t (stopping rest) (t ∷ rest) rest (rw e refl) refl refl refl
        (λ u ne k. inl (ground arith))
  Step-Inv (collector_step (see_stopped t u rest e running)) =
      Inv-look t (stopping rest) (u ∷ rest) rest (rw e refl) refl refl refl (λ a ne k.
        elim (ℕ_discrete u a) [
          | yes same ↦ inr (λ m. running (rw (same, m) refl))
          | no other ↦ inl (ground arith)
        ])
  Step-Inv (collector_step (all_stopped t e)) =
      Inv-look t collecting [] [] (rw e refl) refl refl refl (λ u ne k. inl k)
  Step-Inv (collector_step (end t e)) =
      let active : is_active (w.place t) ≡ true = rw e refl in
      let holder : is_holder (w.place t) ≡ true = rw e refl in
      Inv-moved v t ended (record (move w t ended) { running = false }) (λ u. refl) (λ k. cc)
        (λ u ne k. absurd (ne (v.one_active u t k active)))
        (λ k. (v.holder_locked t holder, λ u ne k'. ne (v.one_holder u t k' holder)))
        (λ u ne k. v.holder_locked u k) (λ l p. cc)
        (λ c l p ne. absurd (ne (v.one_active c t (pending-is_active (w.place c) l p) active)))
  Step-Inv (collector_step (lock_end t e free)) =
      Inv-start_locked (Inv-look t ending [] [] (rw e refl) refl refl refl (λ u ne k. inl k)) true
  Step-Inv (collector_step (unlock_end t e)) =
      let holder : is_holder (w.place t) ≡ true = rw e refl in
      Inv-start_locked
        (Inv-moved v t releasing (move w t releasing) (λ u. refl) (λ k. cc)
          (λ u ne k. v.active_running u k)
          (λ k. (v.holder_locked t holder, λ u ne k'. ne (v.one_holder u t k' holder)))
          (λ u ne k. v.holder_locked u k) (λ l p. cc) (λ c l p ne. (λ k. cc, λ u ne' k. k)))
        false
  Step-Inv (collector_step (unlock t e)) =
      let holder : is_holder (w.place t) ≡ true = rw e refl in
      Inv-moved v t restoring (record (move w t restoring) { locked = false }) (λ u. refl) (λ k. cc)
        (λ u ne k. v.active_running u k) (λ k. cc)
        (λ u ne k. absurd (ne (v.one_holder u t k holder))) (λ l p. cc)
        (λ c l p ne. (λ k. cc, λ u ne' k. k))
  Step-Inv (collector_step (restore t e)) = Inv-plain t checking refl refl (inl (λ k. cc))
