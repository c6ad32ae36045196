-- ===== src/Apic/Tags/Arranged.antt =====
-- The order of objects, as `prepareApicSliceTag` of pkg/apicapi/apic_sync.go sorts them.
use Prim.Native.Nat.{Ordering}
use Prim.Native.String.{compare}
use z_presplit_aci_container.Base.{
  ◌≡◌, ◌∙◌, refl, ap, Bool, true, false, arith, Bool-cases, inl, inr, is_gt,
}
use z_presplit_aci_container.Base.Strings.{flip, compare-flip}
use z_presplit_aci_container.Base.Maps.{Key}
use z_presplit_aci_container.Apic.{ApicObject, ApicSlice, nothing, ◌⨾◌, get_dn, cmp_apic_object}
use z_presplit_aci_container.Apic.Sync.{is_above, insert_object, sort_slice}
use z_presplit_aci_container.Apic.Tags.Specified.{count, SameObjects, NotAbove, Rising}

count-insert_object :
    (test : ApicObject → Bool) (o : ApicObject) (s : ApicSlice)
    → count test (insert_object o s) ≡ count test (o ⨾ s)
unfolding count insert_object
count-insert_object test o nothing = refl
count-insert_object test o (p ⨾ s) = ground (arith, count-insert_object test o s)

pub count-sort_slice : (s : ApicSlice) → SameObjects s (sort_slice s)
unfolding count sort_slice
count-sort_slice nothing test = refl
count-sort_slice (o ⨾ s) test =
    ground (arith, count-insert_object test o (sort_slice s), count-sort_slice s test)

above_gt : (x : Ordering) → is_above x ≡ false → is_gt x ≡ false
above_gt Ordering.lt h = refl
above_gt Ordering.eq h = refl
above_gt Ordering.gt h = absurd (ground arith)

flip_gt : (x : Ordering) → is_above x ≡ true → is_gt (flip x) ≡ false
unfolding flip
flip_gt Ordering.lt h = absurd (ground arith)
flip_gt Ordering.eq h = absurd (ground arith)
flip_gt Ordering.gt h = refl

above_back : (a b : Key) → is_above (compare a b) ≡ true → is_gt (compare b a) ≡ false
above_back a b h = ap is_gt (compare-flip b a) ∙ flip_gt (compare a b) h

insert_object-NotAbove :
    (p o : ApicObject) (s : ApicSlice)
    → NotAbove p s
    → is_gt (compare (get_dn p) (get_dn o)) ≡ false
    → NotAbove p (insert_object o s)
unfolding insert_object cmp_apic_object
insert_object-NotAbove p o nothing h g = g
insert_object-NotAbove p o (q ⨾ s) h g =
    elim (Bool-cases (is_above (compare (get_dn o) (get_dn q)))) [ inl e ↦ rw e h | inr e ↦ rw e g ]

insert_object-Rising : (o : ApicObject) (s : ApicSlice) → Rising s → Rising (insert_object o s)
unfolding insert_object cmp_apic_object
insert_object-Rising o nothing h = (tt, tt)
insert_object-Rising o (p ⨾ s) h = elim (Bool-cases (is_above (compare (get_dn o) (get_dn p)))) [
  | inl e ↦ rw e (
    insert_object-NotAbove p o s h.0 (above_back (get_dn o) (get_dn p) e),
    insert_object-Rising o s h.1,
  )
  | inr e ↦ rw e (above_gt _ e, h)
]

pub sort_slice-Rising : (s : ApicSlice) → Rising (sort_slice s)
unfolding sort_slice
sort_slice-Rising nothing = tt
sort_slice-Rising (o ⨾ s) = insert_object-Rising o (sort_slice s) (sort_slice-Rising s)
