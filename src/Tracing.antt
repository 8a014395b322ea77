-- ===== src/Tracing.antt =====
-- The tracing of src/collector.rs: `Visitor::trace` and `ImmixCollector::collect`.
-- An object is its header, the size and the references that its runtime type reports (the functions
-- `heap_size` and `visit_references` of `HeapObject` in src/object.rs, the embedder's), and whether it has
-- a finalizer. `visit_references` passes each reference to the tracer once, in order; they are written
-- back when all are traced, since the object itself is marked by then and is not moved.
pub mod Examples
mod Tests
pub mod Graph
pub mod Headers
pub mod Marks
pub mod Refines
pub mod Whole
pub mod Safety
use libimmixcons.Base.{
  ℕ, zero, suc, ◌+◌, Bool, true, false, not, ◌&&◌, Option, none, some, List, [], ◌∷◌, ◌==◌,
  if◌then◌else◌, ◌>>=◌, push,
}
use libimmixcons.Align.{align_usize}
use libimmixcons.Object
use libimmixcons.Object.{RawGc, same}
use libimmixcons.Block
use libimmixcons.BlockAllocator.{Memory, write}
use libimmixcons.Allocation.Allocators.{Space}
use libimmixcons.ImmixSpace
use libimmixcons.ImmixSpace.{ImmixSpace}
use libimmixcons.Collector.{CollectionType, immix_collection, immix_evac_collection}

pub record HeapObject : Type 0 where
  pub header : RawGc
  pub heap_size : ℕ
  pub references : List ℕ
  pub needs_finalization : Bool
  pub finalizer : Bool

-- `RawGc::object_size`.
unfoldable pub object_size : HeapObject → ℕ
object_size o = align_usize o.heap_size 16

abbrev pub Objects : Type 0
Objects = ℕ → HeapObject

abbrev pub write_object : Objects → ℕ → HeapObject → Objects
write_object objects at o a = if a == at then o else objects a

-- `immix_space` and `queue` of `Visitor`, with the objects in memory.
pub record World : Type 0 where
  pub immix_space : ImmixSpace
  pub objects : Objects
  pub queue : List ℕ

-- `(*block)` written back.
abbrev pub write_block : ImmixSpace → ℕ → Block.ImmixBlock → ImmixSpace
write_block s block header = record s {
  space = record (s.space) { memory = write s.space.memory block header };
}

-- The copy of an object's bytes.
abbrev copy_object : ℕ → ℕ → ℕ → Objects → Objects
copy_object src dst count objects = write_object objects dst (objects src)

-- A child that is not moved is queued as it is, a moved one by its new address.
pub evacuate_child : World → ℕ → Option (World × ℕ)
evacuate_child w child = do
  (immix_space, objects, moved) ←
      ImmixSpace.maybe_evacuate copy_object w.immix_space w.objects child (w.objects child).header
        (object_size (w.objects child))
  elim moved [
    | none ↦ some (record w { immix_space = immix_space; queue = push w.queue child }, child)
    | some new_child ↦ some (
      record { immix_space = immix_space; objects = objects; queue = push w.queue new_child },
      new_child,
    )
  ]

-- The new value of the reference comes with the state.
pub trace : Bool → Bool → World → ℕ → Option (World × ℕ)
unfolding evacuate_child
trace defrag next_live_mark w reference =
    let child = (w.objects reference).header in
    if Object.is_forwarded child
    then (Object.vtable child >>= λ forwarded. some (w, forwarded))
    else (Object.get_mark child >>= λ mark.
        if same mark next_live_mark
        then some (w, reference)
        else if defrag && ImmixSpace.filter_fast w.immix_space reference
        then evacuate_child w reference
        else some (record w { queue = push w.queue reference }, reference))

pub visit_references : Bool → Bool → World → List ℕ → Option (World × List ℕ)
visit_references defrag next_live_mark w [] = some (w, [])
visit_references defrag next_live_mark w (reference ∷ references) = do
  (w₁, reference') ← trace defrag next_live_mark w reference
  (w₂, references') ← visit_references defrag next_live_mark w₁ references
  some (w₂, reference' ∷ references')

-- The bitmap and the lines of an object in the space.
pub mark_in_block : Objects → ImmixSpace → ℕ → Option ImmixSpace
mark_in_block objects s object =
    if ImmixSpace.filter_fast s object
    then (ImmixSpace.set_gc_object s object >>= λ s'.
        let block = Block.get_block_ptr object in
        Block.line_object_mark (λ o. (objects o).heap_size) (s'.space.memory block) object
        >>= λ header. some (write_block s' block header))
    else some s

-- The body of the loop for an object, with the bytes that it adds to `visited`.
pub visit : Bool → Bool → World → ℕ → Option (World × ℕ)
unfolding mark_in_block
visit defrag next_live_mark w object = do
  (header, was_marked) ← Object.mark (w.objects object).header next_live_mark
  let marked = record (w.objects object) { header = header }
  let w₁ : World = record w { objects = write_object w.objects object marked }
  if was_marked
      then some (w₁, 0)
      else (mark_in_block w₁.objects w₁.immix_space object >>= λ immix_space.
          visit_references defrag next_live_mark (record w₁ { immix_space = immix_space })
            marked.references
          >>= λ (w₂, references).
              let visited_object = record (w₂.objects object) { references = references } in
              some (
                record w₂ { objects = write_object w₂.objects object visited_object },
                object_size visited_object,
              ))

-- The loop over the queue, on fuel.
pub drain_queue : ℕ → Bool → Bool → World → ℕ → Option (World × ℕ)
drain_queue zero defrag next_live_mark w visited = none
drain_queue (suc fuel) defrag next_live_mark w visited = elim (w.queue) [
  | [] ↦ some (w, visited)
  | object ∷ queue ↦
      visit defrag next_live_mark (record w { queue = queue }) object >>= λ (w', bytes).
      drain_queue fuel defrag next_live_mark w' (visited + bytes)
]

-- The slots that hold the precise roots.
abbrev pub Slots : Type 0
Slots = ℕ → ℕ

-- `object_queue.push_back(raw)`.
abbrev pub queued : World → Slots → ℕ → Option (World × Slots)
queued w slots raw = some (record w { queue = push w.queue raw }, slots)

-- The object that a precise root stands for now, with the space, the objects and the slots.
pub precise_root : Bool → World → Slots → ℕ → Option (World × Slots)
precise_root evacuate w slots root =
    let raw = slots root in
    let header = (w.objects raw).header in
    if ImmixSpace.filter_fast w.immix_space raw
    then (if Object.is_forwarded header
        then (Object.vtable header >>= λ forwarded. queued w slots forwarded)
        else if evacuate
        then (ImmixSpace.maybe_evacuate copy_object w.immix_space w.objects raw header
              (object_size (w.objects raw))
            >>= λ (immix_space, copied, moved).
                let w₁ : World = record w { immix_space = immix_space } in
                elim moved [
                  | none ↦ queued w₁ slots raw
                  | some new_object ↦
                      Object.set_forwarded (copied raw).header new_object >>= λ forwarded.
                      queued
                        (record w₁ {
                          objects =
                              write_object copied raw (record (copied raw) { header = forwarded });
                        })
                        (λ slot. if slot == root then new_object else slots slot) new_object
                ])
        else queued w slots raw)
    else queued w slots raw

pub precise_roots : Bool → World → Slots → List ℕ → Option (World × Slots)
unfolding precise_root
precise_roots evacuate w slots [] = some (w, slots)
precise_roots evacuate w slots (root ∷ roots) = do
  (w', slots') ← precise_root evacuate w slots root
  precise_roots evacuate w' slots' roots

abbrev pub is_evac : CollectionType → Bool
is_evac immix_collection = false
is_evac immix_evac_collection = true

-- The bytes visited come last.
pub collect :
    ℕ
    → CollectionType
    → List ℕ
    → List ℕ
    → ImmixSpace
    → Objects
    → Slots
    → Bool
    → Option (World × Slots × ℕ)
collect fuel collection_type roots precise s objects slots next_live_mark = do
  let start : World = record { immix_space = s; objects = objects; queue = roots }
  (w, slots') ← precise_roots (is_evac collection_type) start slots precise
  (w', visited) ← drain_queue fuel (is_evac collection_type) next_live_mark w 0
  some (w', slots', visited)
