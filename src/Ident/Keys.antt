-- ===== src/Ident/Keys.antt =====
-- internal/util/ident: Go's `==` on the keys of arrays and qualified names.
use cdc_sink.Base.{
  ◌≡◌, ap, Bool, true, ◌&&◌, ◌↔◌, Comparable, nat_eq, list_eq, option_eq, ◌==◌, arith,
}
use cdc_sink.Ident.{ArrayKey, QualifiedKey}

-- Two components that are equal make equal pairs.
both_iff :
    {A B : Type 0} ⦃ea : Comparable A⦄ ⦃eb : Comparable B⦄ (a a' : A) (b b' : B)
    → ((a == a' && b == b') ≡ true) ↔ ((a ≡ a') × (b ≡ b'))
both_iff ⦃ea⦄ ⦃eb⦄ a a' b b' = ground (arith, ea.equals_iff a a', eb.equals_iff b b')

abbrev pub array_key_beq : ArrayKey → ArrayKey → Bool
array_key_beq a b = a.first == b.first && a.second == b.second

pub array_key_beq_iff : (a b : ArrayKey) → (array_key_beq a b ≡ true) ↔ (a ≡ b)
array_key_beq_iff a b =
    let parts = both_iff a.first b.first a.second b.second in
    (
      λ h. let (p, q) = parts.0 h in λ i. record { first = p i; second = q i },
      λ e. parts.1 (ap (λ k. k.first) e, ap (λ k. k.second) e),
    )

instance abbrev pub array_key_eq : Comparable ArrayKey
array_key_eq = record { equals = array_key_beq; equals_iff = array_key_beq_iff }

abbrev pub qualified_key_beq : QualifiedKey → QualifiedKey → Bool
qualified_key_beq a b = a.namespace == b.namespace && a.terminal == b.terminal

pub qualified_key_beq_iff : (a b : QualifiedKey) → (qualified_key_beq a b ≡ true) ↔ (a ≡ b)
qualified_key_beq_iff a b =
    let parts = both_iff a.namespace b.namespace a.terminal b.terminal in
    (
      λ h. let (p, q) = parts.0 h in λ i. record { namespace = p i; terminal = q i },
      λ e. parts.1 (ap (λ k. k.namespace) e, ap (λ k. k.terminal) e),
    )

instance abbrev pub qualified_key_eq : Comparable QualifiedKey
qualified_key_eq = record { equals = qualified_key_beq; equals_iff = qualified_key_beq_iff }
