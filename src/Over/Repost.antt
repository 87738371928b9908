-- ===== src/Over/Repost.antt =====
-- How the runs of over2.cpp end.
use await.Base.{
  ℕ, zero, suc, ◌+◌, ◌<◌, ◌≡◌, refl, ap, ◌∙◌, [], ℤ, pos, negsuc, pos_part, done, Returns, subst,
  sym, arith,
}
use await.Over

run_loop :
    (fuel n ran : ℕ) (frame : Over.Frame)
    → n < fuel
    → Over.run fuel (Over.loop (pos n) (record { frame = frame; context = []; ran = ran }))
      ≡ done (record {
        frame = record { n = negsuc 0; point = Over.finished };
        context = [];
        ran = ran + n;
      })
unfolding Over.run
run_loop zero n ran frame h = absurd (omega (arith, h))
run_loop (suc fuel) zero ran frame h =
    ap
      (λ k.
        done (record {
          frame = record { n = negsuc 0; point = Over.finished };
          context = [];
          ran = k;
        }))
      (omega arith)
run_loop (suc fuel) (suc n) ran frame h =
    run_loop fuel n (ran + 1) (record { n = pos n; point = Over.at_post }) (omega (arith, h))
    ∙ ap
        (λ k. done (record {
          frame = record { n = negsuc 0; point = Over.finished };
          context = [];
          ran = k;
        }))
        (omega arith)

pub over2_main-Returns :
    (fuel : ℕ) (n : ℤ)
    → pos_part n < fuel
    → Returns
        (Over.over2_main fuel n)
        (λ w. (w.frame.point ≡ Over.finished) × (w.context ≡ []) × (w.ran ≡ pos_part n))
unfolding Over.over2_main Over.repost Over.run
over2_main-Returns zero n h = absurd (omega (arith, h))
over2_main-Returns (suc fuel) (pos n) h =
    subst (λ r. Returns r (λ w. (w.frame.point ≡ Over.finished) × (w.context ≡ []) × (w.ran ≡ n)))
      (sym (run_loop (suc fuel) n 0 (record { n = pos n; point = Over.at_post }) h))
      (refl, refl, omega arith)
over2_main-Returns (suc fuel) (negsuc n) h = (refl, refl, refl)
