-- ===== src/Object/Tests.antt =====
-- Runs on a marked object with its type at 4096.
use libimmixcons.Base.{◌≡◌, refl, arith}
use libimmixcons.TaggedPointer
use libimmixcons.Object.{RawGc}
use libimmixcons.Object.Header.{IsHeader}

abbrev marked_object : RawGc
marked_object = record { vtable = record { raw = 4097 } }

untagged_run : TaggedPointer.untagged 4097 ≡ 4096
unfolding TaggedPointer.untagged
untagged_run = refl

marked_object-IsHeader : IsHeader marked_object
marked_object-IsHeader = record {
  in_word = omega arith;
  not_null = λ e. absurd (omega (arith, e, untagged_run));
}
