-- ===== src/Selection/Fairness.antt =====
-- The share of the requests that each weighted backend takes.
use mathlib.Core.List.{Perm, map-append, perm_append_comm}
use mathlib.Core.List.Perm as Perm
use native.Mathlib.Nat.{mod-lt, mod-eq_of_lt, mod-add-mod, mod_self}
use ngxora.Base.{
  ℕ, zero, suc, ◌==◌, ◌+◌, ◌-◌, ◌%◌, ◌^◌, ◌≤◌, ◌<◌, ◌≡◌, refl, sym, ◌∙◌, ap, subst, arith, true,
  false, List, [], ◌∷◌, ◌++◌, map, Option, some, ltb,
}
use ngxora.Machine.{wrapping_add}
use ngxora.Routing.Types.{RouteTarget, Backends, no_backends, backend}
use ngxora.Selection.{total_weight, pick_slot, Pick, picked, picked_of, select_weighted}

-- The picks of a number of requests in turn, from a value of the route's counter.
unfoldable pub requests : ℕ → Option ℕ → Backends → List Pick
requests zero counter bs = []
requests (suc n) counter bs =
    let (pick, counter') = select_weighted counter bs in pick ∷ requests n counter' bs

unfoldable pub times : ℕ → RouteTarget → List RouteTarget
times zero target = []
times (suc n) target = target ∷ times n target

-- The targets, each as often as its weight.
unfoldable pub by_weight : Backends → List RouteTarget
by_weight no_backends = []
by_weight (backend weight target rest) = times weight target ++ by_weight rest

-- The picks of consecutive slots.
slots : ℕ → ℕ → Backends → List Pick
slots zero s bs = []
slots (suc n) s bs = picked_of (pick_slot s bs) ∷ slots n (s + 1) bs

slots-add :
    (j k m s t : ℕ) (bs : Backends)
    → m ≡ j + k
    → t ≡ s + j
    → slots m s bs ≡ slots j s bs ++ slots k t bs
unfolding slots
slots-add zero k m s t bs e f =
    ap (λ n. slots n s bs) (omega (arith, e)) ∙ ap (λ r. slots k r bs) (omega (arith, f))
slots-add (suc j) k zero s t bs e f = ground arith
slots-add (suc j) k (suc m) s t bs e f =
    ap (λ ps. picked_of (pick_slot s bs) ∷ ps)
      (slots-add j k m (s + 1) t bs (omega (arith, e)) (omega (arith, f)))

-- The slots of the first backend, and those behind it.
slots-first :
    (w n s : ℕ) (target : RouteTarget) (bs : Backends)
    → n + s ≤ w
    → slots n s (backend w target bs) ≡ map picked (times n target)
unfolding slots pick_slot times
slots-first w zero s target bs h = refl
slots-first w (suc n) s target bs h =
    let e : ltb s w ≡ true = ground arith in
    rw e (ap (λ ps. picked target ∷ ps) (slots-first w n (s + 1) target bs (omega (arith, h))))

slots-rest :
    (w n s t : ℕ) (target : RouteTarget) (bs : Backends)
    → t ≡ s + w
    → slots n t (backend w target bs) ≡ slots n s bs
unfolding slots pick_slot
slots-rest w zero s t target bs h = refl
slots-rest w (suc n) s t target bs h =
    let e : ltb t w ≡ false = ground arith in
    let f : t - w ≡ s = omega (arith, h) in
    rw (e, f)
      (ap (λ ps. picked_of (pick_slot s bs) ∷ ps)
        (slots-rest w n (s + 1) (t + 1) target bs (omega (arith, h))))

slots-all : (bs : Backends) → slots (total_weight bs) 0 bs ≡ map picked (by_weight bs)
unfolding slots total_weight by_weight
slots-all no_backends = refl
slots-all (backend w target bs) =
    slots-add w (total_weight bs) (w + total_weight bs) 0 w (backend w target bs) refl (omega arith)
    ∙ rw
        (
          slots-first w w 0 target bs (omega arith),
          slots-rest w (total_weight bs) 0 w target bs (omega arith),
          slots-all bs,
        )
        (sym (map-append picked (times w target) (by_weight bs)))

pub select_weighted-some :
    (c : ℕ) (bs : Backends)
    → 0 < total_weight bs
    → select_weighted (some c) bs
      ≡ (picked_of (pick_slot (c % total_weight bs) bs), some (wrapping_add c 1))
unfolding select_weighted
select_weighted-some c bs h = let e : (total_weight bs == 0) ≡ false = ground arith in rw e refl

next_slot : (c s t : ℕ) → c % t ≡ s → s + 1 < t → (c + 1) % t ≡ s + 1
next_slot c s t e h = sym (mod-add-mod c t 1) ∙ ap (λ r. (r + 1) % t) e ∙ mod-eq_of_lt h

requests-slots :
    (n c s : ℕ) (bs : Backends)
    → c % total_weight bs ≡ s
    → s + n ≤ total_weight bs
    → c + n ≤ 2 ^ 64
    → requests n (some c) bs ≡ slots n s bs
unfolding requests slots
requests-slots zero c s bs e h k = refl
requests-slots (suc zero) c s bs e h k = rw (select_weighted-some c bs (omega (arith, h)), e) refl
requests-slots (suc (suc n)) c s bs e h k =
    let w : wrapping_add c 1 ≡ c + 1 = mod-eq_of_lt (omega (arith, k)) in
    rw (select_weighted-some c bs (omega (arith, h)), e, w)
      (ap (λ ps. picked_of (pick_slot s bs) ∷ ps)
        (requests-slots (suc n) (c + 1) (s + 1) bs
          (next_slot c s (total_weight bs) e (omega (arith, h))) (omega (arith, h))
          (omega (arith, k))))

requests-add :
    (j k m c d : ℕ) (bs : Backends)
    → m ≡ j + k
    → d ≡ c + j
    → 0 < total_weight bs
    → d < 2 ^ 64
    → requests m (some c) bs ≡ requests j (some c) bs ++ requests k (some d) bs
unfolding requests
requests-add zero k m c d bs e f h b =
    ap (λ n. requests n (some c) bs) (omega (arith, e))
    ∙ ap (λ r. requests k (some r) bs) (omega (arith, f))
requests-add (suc j) k zero c d bs e f h b = ground arith
requests-add (suc j) k (suc m) c d bs e f h b =
    let w : wrapping_add c 1 ≡ c + 1 = mod-eq_of_lt (omega (arith, f, b)) in
    rw (select_weighted-some c bs h, w)
      (ap (λ ps. picked_of (pick_slot (c % total_weight bs) bs) ∷ ps)
        (requests-add j k m (c + 1) d bs (omega (arith, e)) (omega (arith, f)) h b))

-- A window that begins within a round ends in the next one.
requests-wrapped :
    (c s r : ℕ) (bs : Backends)
    → c % total_weight bs ≡ s
    → 0 < s
    → s + r ≡ total_weight bs
    → c + total_weight bs ≤ 2 ^ 64
    → requests (total_weight bs) (some c) bs ≡ slots r s bs ++ slots s 0 bs
requests-wrapped c s r bs e p h k =
    let t : ℕ = total_weight bs in
    let z : (c + r) % t ≡ 0 =
      sym (mod-add-mod c t r) ∙ ap (λ x. (x + r) % t) e ∙ ap (λ x. x % t) h ∙ mod_self t in
    requests-add r s t c (c + r) bs (omega (arith, h)) refl (omega (arith, h, p))
      (omega (arith, h, p, k))
    ∙ rw
        (
          requests-slots r c s bs e (omega (arith, h)) (omega (arith, h, k)),
          requests-slots s (c + r) 0 bs z (omega (arith, h)) (omega (arith, h, k)),
        )
        refl

-- For weights with a sum above 0: over as many consecutive requests as that sum, from whatever
-- value of the counter that does not wrap within them, the targets that are picked are, up to their order, each
-- backend's target as often as its weight.
pub requests-by_weight :
    (c : ℕ) (bs : Backends)
    → 0 < total_weight bs
    → c + total_weight bs ≤ 2 ^ 64
    → Perm (requests (total_weight bs) (some c) bs) (map picked (by_weight bs))
requests-by_weight c bs h k = by_slot (c % total_weight bs) refl (mod-lt c h)
  where
    t : ℕ
    t = total_weight bs

    by_slot :
        (s : ℕ) → c % t ≡ s → s < t → Perm (requests t (some c) bs) (map picked (by_weight bs))
    by_slot zero e l =
        subst (λ ps. Perm ps (map picked (by_weight bs)))
          (sym (requests-slots t c 0 bs e (omega arith) k ∙ slots-all bs)) Perm.rfl
    by_slot (suc s) e l =
        subst (λ ps. Perm ps (map picked (by_weight bs)))
          (sym (requests-wrapped c (suc s) (t - suc s) bs e (omega arith) (omega (arith, l)) k))
          (Perm.trans (perm_append_comm (slots (t - suc s) (suc s) bs) (slots (suc s) 0 bs)) (
            subst (λ ps. Perm ps (map picked (by_weight bs)))
              (sym (slots-all bs)
                ∙ slots-add (suc s) (t - suc s) t 0 (suc s) bs (omega (arith, l)) (omega arith))
              Perm.rfl))
