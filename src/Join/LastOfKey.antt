-- ===== src/Join/LastOfKey.antt =====
-- join/join.go: the keys of the lefts that `HashJoin` keeps.
use mathlib.Core.List.{Nodup-cons, Nodup-nil, mem-cons, mem-cons_of_mem, dec_mem, Mem-prop}
use mathlib.Core.List.Perm
use mathlib.Core.Logic.Or
use quilt.Prelude.{sym, subst, List, [], ◌∷◌, map, Mem, Nodup, Perm, test_yes, test_no, ◌↔◌}
use quilt.Join.Build.{last_of_key}

-- The list has the elements of another, each of them once.
abbrev pub EachOnce : {K : Type 0} → List K → List K → Type 0
EachOnce {K} ks wanted = Nodup ks × ((k : K) → Mem k ks ↔ Mem k wanted)

pub EachOnce-perm :
    {K : Type 0} (ks ls wanted : List K) → Perm ks ls → EachOnce ls wanted → EachOnce ks wanted
EachOnce-perm ks ls wanted p (d, h) = (
  Perm.nodup (Perm.symm p) d,
  λ k. (λ m. (h k).0 ((Perm.mem_iff p).0 m), λ m. (Perm.mem_iff p).1 ((h k).1 m)),
)

module _ {K L : Type 0} (dec : Discrete K) (l_key : L → K) where
  kept : (ls : List L) (k : K) → Mem k (map l_key (last_of_key dec l_key ls)) ↔ Mem k (map l_key ls)
  unfolding last_of_key
  kept [] k = (λ m. m, λ m. m)
  kept (l ∷ ls) k = elim (dec_mem dec (l_key l) (map l_key ls)) [
    | yes p ↦ rw (test_yes (dec_mem dec (l_key l) (map l_key ls)) p) (
      λ m. mem-cons_of_mem (l_key l) ((kept ls k).0 m),
      λ m.
          Or.elim Mem-prop (mem-cons.0 m)
            (λ e. (kept ls k).1 (subst (λ j. Mem j (map l_key ls)) (sym e) p)) (kept ls k).1,
    )
    | no p ↦ rw (test_no (dec_mem dec (l_key l) (map l_key ls)) p) (
      λ m.
          Or.elim Mem-prop (mem-cons.0 m) (λ e. mem-cons.1 (Or.inl e))
            (λ n. mem-cons_of_mem (l_key l) ((kept ls k).0 n)),
      λ m.
          Or.elim Mem-prop (mem-cons.0 m) (λ e. mem-cons.1 (Or.inl e))
            (λ n. mem-cons_of_mem (l_key l) ((kept ls k).1 n)),
    )
  ]

  once : (ls : List L) → Nodup (map l_key (last_of_key dec l_key ls))
  unfolding last_of_key
  once [] = Nodup-nil
  once (l ∷ ls) = elim (dec_mem dec (l_key l) (map l_key ls)) [
    | yes p ↦ rw (test_yes (dec_mem dec (l_key l) (map l_key ls)) p) (once ls)
    | no p ↦
        rw (test_no (dec_mem dec (l_key l) (map l_key ls)) p)
          (Nodup-cons.1 (λ m. p ((kept ls (l_key l)).0 m), once ls))
  ]

  pub last_of_key-EachOnce :
      (ls : List L) → EachOnce (map l_key (last_of_key dec l_key ls)) (map l_key ls)
  last_of_key-EachOnce ls = (once ls, kept ls)
