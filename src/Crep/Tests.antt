-- ===== src/Crep/Tests.antt =====
-- internal/util/crep/equal.go on concrete values.
use cdc_sink.Base.{◌≡◌, refl, true, false, [], ◌∷◌, list_beq}
use cdc_sink.Crep.{
  Value, nil, bool, string, array, object, end, item, empty, field, equal, size, lookup,
}

abbrev some_object : Value
some_object = object (field (b'a' ∷ []) nil (field (b'b' ∷ []) (string (b'1' ∷ [])) empty))

-- The order of the fields does not matter, that of the items does.
reordered_fields :
    equal some_object
      (object (field (b'b' ∷ []) (string (b'1' ∷ [])) (field (b'a' ∷ []) nil empty)))
    ≡ true
unfolding equal size lookup list_beq
reordered_fields = refl

reordered_items :
    equal (array (item (bool true) (item nil end))) (array (item nil (item (bool true) end)))
    ≡ false
unfolding equal
reordered_items = refl

missing_field : equal some_object (object (field (b'b' ∷ []) (string (b'1' ∷ [])) empty)) ≡ false
unfolding equal size
missing_field = refl
