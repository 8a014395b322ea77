-- ===== src/Allocation/Place.antt =====
-- `allocate` of any allocator: where the object goes, from what each of its steps finds.
use libimmixcons.Base.{ℕ, ◌+◌, ◌%◌, ◌≤◌, ◌≡◌, refl, Option, none, some, ◌>>=◌}
use libimmixcons.Allocation.Scan.{BlockTuple, scan_for_hole, allocate_from_block}
use libimmixcons.Allocation.Allocator.{AllocatorOps, or_else, allocate}
use libimmixcons.Allocation.Allocators.{Space}
use libimmixcons.Allocation.Hole.{Usable, advance, allocate_from_block_lem}

-- What the search of a step found: a usable tuple with room in a block that it may take, or nothing.
pub data Sought (size : ℕ) (From : ℕ → Type 0) (Frame Keeps : Space → Type 0)
    (r : Option (Space × Option BlockTuple)) : Type 0 where
  has :
      (s' : Space) (tp : BlockTuple)
      → r ≡ some (s', some tp)
      → Usable s'.memory tp
      → tp.low + size ≤ tp.high
      → From tp.block
      → Frame s'
      → Sought size From Frame Keeps r
  lacks : (s' : Space) → r ≡ some (s', none) → Keeps s' → Sought size From Frame Keeps r

-- The result of `allocate`: the object lies at the start of what was left of a usable tuple, which is now
-- the current one and begins after it; or there is no room.
pub data Placed (current : Space → Option BlockTuple) (size : ℕ) (From : ℕ → Type 0)
    (Frame NoRoom : Space → Type 0) (r : Option (Space × ℕ)) : Type 0 where
  placed :
      (s' : Space) (tp : BlockTuple)
      → r ≡ some (s', tp.block + tp.low)
      → Usable s'.memory tp
      → tp.low + size ≤ tp.high
      → current s' ≡ some (advance tp size)
      → Usable s'.memory (advance tp size)
      → From tp.block
      → Frame s'
      → Placed current size From Frame NoRoom r
  no_room : (s' : Space) → r ≡ some (s', 0) → NoRoom s' → Placed current size From Frame NoRoom r

-- The first step of `allocate`.
abbrev pub seek_current :
    AllocatorOps Space → ℕ → Space → Option BlockTuple → Option (Space × Option BlockTuple)
seek_current ops size s none = some (s, none)
seek_current ops size s (some tp) = scan_for_hole ops.memory ops.handle_full_block size tp s

-- What an allocator over a space promises: each step finds a tuple or hands on what the next step needs.
pub record IsAllocator (ops : AllocatorOps Space) (current : Space → Option BlockTuple) (size : ℕ)
    (s : Space) (From : ℕ → Type 0) (Frame Searched Recycled NoRoom : Space → Type 0) : Type 0 where
  pub sees : (t : Space) → ops.memory t ≡ t.memory
  pub puts_current : (t : Space) (tp : BlockTuple) → current (ops.put_current_block t tp) ≡ some tp
  pub puts_memory : (t : Space) (tp : BlockTuple) → (ops.put_current_block t tp).memory ≡ t.memory
  pub puts_Frame : (t : Space) (tp : BlockTuple) → Frame t → Frame (ops.put_current_block t tp)
  pub in_current :
      Sought size From Frame Searched
        (seek_current ops size ((ops.take_current_block s).0) ((ops.take_current_block s).1))
  pub in_recycled :
      (t : Space) → Searched t → Sought size From Frame Recycled (ops.handle_no_hole t size)
  pub in_new : (t : Space) → Recycled t → Sought size From Frame NoRoom (ops.get_new_block t)

module _ {ops : AllocatorOps Space} {current : Space → Option BlockTuple} {size : ℕ} {s : Space}
    {From : ℕ → Type 0} {Frame Searched Recycled NoRoom : Space → Type 0}
    (a : IsAllocator ops current size s From Frame Searched Recycled NoRoom)
    (whole : size % 16 ≡ 0) where
  -- The last step of `allocate`.
  abbrev place : Space × Option BlockTuple → Option (Space × ℕ)
  place (t, none) = some (t, 0)
  place (t, some tp) = allocate_from_block (ops.memory t) size tp >>= λ (tp', object).
      some (ops.put_current_block t tp', object)

  place_lem :
      (t : Space) (tp : BlockTuple)
      → Usable t.memory tp
      → tp.low + size ≤ tp.high
      → From tp.block
      → Frame t
      → Placed current size From Frame NoRoom (place (t, some tp))
  place_lem t tp v room from frame =
      let p = allocate_from_block_lem size v whole room in
      let t' = ops.put_current_block t (advance tp size) in
      let same = a.puts_memory t (advance tp size) in
      placed t' tp (rw (a.sees t, p.0) refl) (rw same v) room (a.puts_current t (advance tp size))
        (rw same (p.1)) from (a.puts_Frame t (advance tp size) frame)

  new_lem :
      (r : Option (Space × Option BlockTuple))
      → Sought size From Frame NoRoom r
      → Placed current size From Frame NoRoom (r >>= place)
  new_lem r (has t tp e v room from frame) = rw e (place_lem t tp v room from frame)
  new_lem r (lacks t e none_left) = no_room t (rw e refl) none_left

  recycled_lem :
      (r : Option (Space × Option BlockTuple))
      → Sought size From Frame Recycled r
      → Placed current size From Frame NoRoom
          (r >>= λ recycled. or_else recycled ops.get_new_block >>= place)
  recycled_lem r (has t tp e v room from frame) = rw e (place_lem t tp v room from frame)
  recycled_lem r (lacks t e k) = rw e (new_lem (ops.get_new_block t) (a.in_new t k))

  current_lem :
      (r : Option (Space × Option BlockTuple))
      → Sought size From Frame Searched r
      → Placed current size From Frame NoRoom (
          r >>= λ found. or_else found (λ t. ops.handle_no_hole t size) >>= λ recycled.
          or_else recycled ops.get_new_block >>= place)
  current_lem r (has t tp e v room from frame) = rw e (place_lem t tp v room from frame)
  current_lem r (lacks t e k) = rw e (recycled_lem (ops.handle_no_hole t size) (a.in_recycled t k))

  -- `allocate` ends without a panic, and does what its steps promise.
  pub allocate-Placed : Placed current size From Frame NoRoom (allocate ops size s)
  unfolding allocate
  allocate-Placed =
      let t = (ops.take_current_block s).0 in
      let found = (ops.take_current_block s).1 in
      current_lem (seek_current ops size t found) a.in_current
