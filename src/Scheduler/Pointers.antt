-- ===== src/Scheduler/Pointers.antt =====
-- minion/scheduler/master.go: the pointers to the containers of a slice.
use native.Mathlib.Bridge.{le_prop}
use mathlib.Core.List.{
  List, mem-cons, mem-cons_self, mem-cons_of_mem, mem-map_of_mem, not-mem-nil, Mem-prop, Nodup-cons,
  Nodup-nil,
}
use mathlib.Core.Logic.Or
use mathlib.Core.HLevel.{⊥_prop}
use quilt.Prelude.{ℕ, zero, suc, ◌<◌, ◌≡◌, refl, ap, ◌∙◌, [], ◌∷◌, map, length, Mem, Nodup, arith}
use quilt.Db.MinionRows.{Container}
use quilt.Scheduler.Context.{Memory}
use quilt.Scheduler.Make.{pointed}

-- 0 to n - 1.
abbrev pub pointers : ℕ → List ℕ
pointers zero = []
pointers (suc n) = 0 ∷ map suc (pointers n)

map-suc : (f : Memory) (ps : List ℕ) → map f (map suc ps) ≡ map (λ j. f (suc j)) ps
map-suc f [] = refl
map-suc f (p ∷ ps) = ap (◌∷◌ (f (suc p))) (map-suc f ps)

pub map-pointed : (cs : List Container) → map (pointed cs) (pointers (length cs)) ≡ cs
unfolding pointed
map-pointed [] = refl
map-pointed (c ∷ cs) =
    ap (◌∷◌ c) (map-suc (pointed (c ∷ cs)) (pointers (length cs)) ∙ map-pointed cs)

pub mem-pointers : (n j : ℕ) → j < n → Mem j (pointers n)
mem-pointers zero j h = absurd (omega arith)
mem-pointers (suc n) zero h = mem-cons_self
mem-pointers (suc n) (suc j) h =
    mem-cons_of_mem 0 (mem-map_of_mem suc (mem-pointers n j (omega arith)))

no_zero : (ps : List ℕ) → ¬ Mem 0 (map suc ps)
no_zero [] m = not-mem-nil m
no_zero (p ∷ ps) m = Or.elim ⊥_prop (mem-cons.0 m) (λ e. absurd (omega arith)) (no_zero ps)

unsuc : (ps : List ℕ) (j : ℕ) → Mem (suc j) (map suc ps) → Mem j ps
unsuc [] j m = absurd (not-mem-nil m)
unsuc (p ∷ ps) j m =
    Or.elim Mem-prop (mem-cons.0 m) (λ e. mem-cons.1 (Or.inl (omega arith)))
      (λ m'. mem-cons_of_mem p (unsuc ps j m'))

suc-Nodup : (ps : List ℕ) → Nodup ps → Nodup (map suc ps)
suc-Nodup [] d = Nodup-nil
suc-Nodup (p ∷ ps) d =
    let (a, b) = Nodup-cons.0 d in Nodup-cons.1 (λ m. a (unsuc ps p m), suc-Nodup ps b)

pub pointers-Nodup : (n : ℕ) → Nodup (pointers n)
pointers-Nodup zero = Nodup-nil
pointers-Nodup (suc n) =
    Nodup-cons.1 (no_zero (pointers n), suc-Nodup (pointers n) (pointers-Nodup n))

suc-le :
    (n : ℕ) (ps : List ℕ) → ((j : ℕ) → Mem j ps → j < n) → (j : ℕ) → Mem j (map suc ps) → j < suc n
suc-le n [] h j m = absurd (not-mem-nil m)
suc-le n (p ∷ ps) h j m =
    Or.elim le_prop (mem-cons.0 m) (λ e. let k = h p mem-cons_self in omega arith)
      (suc-le n ps (λ i l. h i (mem-cons_of_mem p l)) j)

pub pointers-lt : (n j : ℕ) → Mem j (pointers n) → j < n
pointers-lt zero j m = absurd (not-mem-nil m)
pointers-lt (suc n) j m =
    Or.elim le_prop (mem-cons.0 m) (λ e. omega arith) (suc-le n (pointers n) (pointers-lt n) j)
