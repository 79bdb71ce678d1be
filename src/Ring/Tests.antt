-- ===== src/Ring/Tests.antt =====
-- Rings of four entries, one of them across the wrap of the cursors.
use yggdrasil.Ring.{Ring, full, push, pop}
use yggdrasil.Ring.Index.{IsCap}
use yggdrasil.Ring.Refine.{contents, IsValid, push_refines, pop_refines}
use yggdrasil.Prelude.{
  ℕ, ◌-◌, ◌^◌, ◌<◌, ◌≡◌, refl, ◌⊎◌, none, some, List, [], ◌∷◌, ◌++◌, arith, length, ok, err,
}

-- 8, then 9
abbrev wrapping : Ring ℕ
wrapping = record { entries = 9 ∷ 7 ∷ 6 ∷ 8 ∷ []; head = 2 ^ 32 - 1; tail = 1 }

wrapping-IsValid : IsValid 4 0 wrapping
wrapping-IsValid = record {
  size = refl;
  head_in = omega arith;
  tail_in = omega arith;
  used = omega arith;
}

four-IsCap : IsCap 4
four-IsCap = (2, omega arith, refl)

push_refines_example :
    ((length (contents 4 0 wrapping) ≡ 4) × (push 4 wrapping 5 ≡ err full))
    ⊎ ((length (contents 4 0 wrapping) < 4)
        × (r' : Ring ℕ) × (push 4 wrapping 5 ≡ ok r')
        × (contents 4 0 r' ≡ contents 4 0 wrapping ++ (5 ∷ []))
        × IsValid 4 0 r')
push_refines_example = push_refines 4 0 wrapping 5 four-IsCap wrapping-IsValid

pop_refines_example :
    ((contents 4 0 wrapping ≡ []) × (pop 4 wrapping ≡ ok (none, wrapping)))
    ⊎ ((v : ℕ) × (rest : List ℕ) × (contents 4 0 wrapping ≡ v ∷ rest)
        × (r' : Ring ℕ) × (pop 4 wrapping ≡ ok (some v, r'))
        × (contents 4 0 r' ≡ rest)
        × IsValid 4 0 r')
pop_refines_example = pop_refines 4 0 wrapping four-IsCap wrapping-IsValid
