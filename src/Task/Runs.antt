-- ===== src/Task/Runs.antt =====
-- A run of awaithe.cpp against the same bodies as plain functions that call each other.
use await.Base.{
  ℕ, suc, ◌+◌, ◌≡◌, refl, ap, sym, ◌∙◌, subst, true, to_ℕ, ltb, ==_iff, List, [], ◌∷◌, ◌++◌, Option,
  none, some, total, ◌==◌, if◌then◌else◌, arith,
}
use Prim.Native.String.{String}
use mathlib.Core.List.{append-nil, append_assoc}
use await.Task

-- what the body prints when a call runs to its end before it goes on
abbrev pub direct : Task.Body → List String
direct Task.returns = []
direct (Task.says line rest) = line ∷ direct rest
direct (Task.goes_on rest) = direct rest
direct (Task.awaits callee rest) = direct callee ++ ("has waiter, resuming...\n" ∷ direct rest)

-- the body as a function, up to the final suspension
abbrev run_through : Task.Body → ℕ → Task.World → Task.World
run_through Task.returns frame w = Task.suspend_last frame w
run_through (Task.says line rest) frame w = run_through rest frame (Task.say line w)
run_through (Task.goes_on rest) frame w = run_through rest frame w
run_through (Task.awaits callee rest) frame w = run_through rest frame (
    Task.destroy_frame w.made
      (Task.say "has waiter, resuming...\n" (run_through callee w.made (Task.create w))))

resume-run_through :
    (b : Task.Body) (frame : ℕ) (waiter : Option (Task.World → Task.World)) (w : Task.World)
    → Task.resume b frame waiter w ≡ Task.final_suspend waiter (run_through b frame w)
unfolding Task.resume
resume-run_through Task.returns frame waiter w = refl
resume-run_through (Task.says line rest) frame waiter w =
    resume-run_through rest frame waiter (Task.say line w)
resume-run_through (Task.goes_on rest) frame waiter w = resume-run_through rest frame waiter w
resume-run_through (Task.awaits callee rest) frame waiter w =
    resume-run_through callee w.made
      (some (λ w'. Task.resume rest frame waiter (Task.destroy_frame w.made w'))) (Task.create w)
    ∙ resume-run_through rest frame waiter (
        Task.destroy_frame w.made
          (Task.say "has waiter, resuming...\n" (run_through callee w.made (Task.create w))))

-- the frames of a body's calls, its own not among them
abbrev pub calls : Task.Body → ℕ
calls Task.returns = 0
calls (Task.says line rest) = calls rest
calls (Task.goes_on rest) = calls rest
calls (Task.awaits callee rest) = suc (calls callee) + calls rest

-- what a body does to the world: it prints `lines`, makes frames and destroys each of them
record Did (frame : ℕ) (lines : List String) (frames : ℕ) (w w' : Task.World) : Type 0 where
  printed : w'.printed ≡ w.printed ++ lines
  made : w'.made ≡ w.made + frames
  last : (l : List ℕ) × (w'.at_final ≡ frame ∷ l)
  freed :
      (h : ℕ)
      → total (λ k. to_ℕ (k == h)) w'.destroyed + to_ℕ (ltb h w.made)
        ≡ total (λ k. to_ℕ (k == h)) w.destroyed + to_ℕ (ltb h (w.made + frames))
  bad : w'.bad ≡ w.bad

holds-first : (x : ℕ) (l : List ℕ) → Task.holds x (x ∷ l) ≡ true
holds-first x l = rw (((==_iff x x).1) refl) refl

destroy_frame-first :
    (frame : ℕ) (w : Task.World) (l : List ℕ)
    → w.at_final ≡ frame ∷ l
    → Task.destroy_frame frame w ≡ record w { destroyed = frame ∷ w.destroyed }
destroy_frame-first frame w l e =
    ap
      (λ b.
        if b
        then record w { destroyed = frame ∷ w.destroyed }
        else record w { destroyed = frame ∷ w.destroyed; bad = w.bad + 1 })
      (ap (Task.holds frame) e ∙ holds-first frame l)

one_frame : (h n : ℕ) → to_ℕ (n == h) + to_ℕ (ltb h n) ≡ to_ℕ (ltb h (n + 1))
one_frame h n = ground arith

below_zero : (h : ℕ) → to_ℕ (ltb h 0) ≡ 0
below_zero h = ground arith

run_through-Did :
    (b : Task.Body) (frame : ℕ) (w : Task.World)
    → Did frame (direct b) (calls b) w (run_through b frame w)
run_through-Did Task.returns frame w = record {
  printed = sym (append-nil w.printed);
  made = omega arith;
  last = (w.at_final, refl);
  freed = λ h. ap (λ n. total (λ k. to_ℕ (k == h)) w.destroyed + to_ℕ (ltb h n)) (omega arith);
  bad = refl;
}
run_through-Did (Task.says line rest) frame w =
    let d = run_through-Did rest frame (Task.say line w) in
    record {
      printed = d.printed ∙ append_assoc w.printed (line ∷ []) (direct rest);
      made = d.made;
      last = d.last;
      freed = d.freed;
      bad = d.bad;
    }
run_through-Did (Task.goes_on rest) frame w = run_through-Did rest frame w
run_through-Did (Task.awaits callee rest) frame w =
    let d = run_through-Did callee w.made (Task.create w) in
    let mid = Task.say "has waiter, resuming...\n" (run_through callee w.made (Task.create w)) in
    let gone : Task.World = record mid { destroyed = w.made ∷ mid.destroyed } in
    subst
      (λ v.
        Did frame (direct (Task.awaits callee rest)) (calls (Task.awaits callee rest)) w
          (run_through rest frame v))
      (sym (destroy_frame-first w.made mid d.last.0 d.last.1))
      (awaited d (run_through-Did rest frame gone))
  where
    awaited :
        Did w.made
          (direct callee)
          (calls callee)
          (Task.create w)
          (run_through callee w.made (Task.create w))
        → (let mid =
              Task.say "has waiter, resuming...\n" (run_through callee w.made (Task.create w)) in
            let gone : Task.World = record mid { destroyed = w.made ∷ mid.destroyed } in
            Did frame (direct rest) (calls rest) gone (run_through rest frame gone)
            → Did frame
                (direct (Task.awaits callee rest))
                (calls (Task.awaits callee rest))
                w
                (run_through rest frame gone))
    awaited d e = record {
      printed =
          e.printed
          ∙ ap (λ l. (l ++ ("has waiter, resuming...\n" ∷ [])) ++ direct rest) d.printed
          ∙ append_assoc (w.printed ++ direct callee) ("has waiter, resuming...\n" ∷ [])
              (direct rest)
          ∙ append_assoc w.printed (direct callee) ("has waiter, resuming...\n" ∷ direct rest);
      made = omega (arith, e.made, d.made);
      last = e.last;
      freed = λ h.
          let below : ℕ → ℕ = λ n. to_ℕ (ltb h n) in
          let one = ap below d.made in
          let all : (run_through callee w.made (Task.create w)).made + calls rest
              ≡ w.made + (suc (calls callee) + calls rest) =
            omega (arith, d.made) in
          omega (arith, one_frame h w.made, d.freed h, e.freed h, one, ap below all);
      bad = e.bad ∙ d.bad;
    }

-- what `main` has done at its end
pub record Ran (b : Task.Body) (w : Task.World) : Type 0 where
  pub printed : w.printed ≡ direct b ++ ("no waiter\n\n" ∷ "post-resume" ∷ [])
  pub made : w.made ≡ suc (calls b)
  pub destroyed : (h : ℕ) → total (λ k. to_ℕ (k == h)) w.destroyed ≡ to_ℕ (ltb h w.made)
  pub at_final : w.bad ≡ 0

-- When `main` of awaithe.cpp runs any body of calls in the place of `f`: it prints what the calls
-- print as plain functions, with a line behind each awaited call, and then that none waits and
-- that `resume` is over; it makes one frame for itself and one for each call, and destroys each
-- of them just once, at its final suspension.
pub main_of-Ran : (b : Task.Body) → Ran b (Task.main_of b)
unfolding Task.main_of
main_of-Ran b =
    let empty : Task.World = record {
      printed = [];
      made = 0;
      at_final = [];
      destroyed = [];
      bad = 0;
    } in
    let d = run_through-Did b 0 (Task.create empty) in
    let end =
      Task.say "post-resume" (Task.say "no waiter\n\n" (run_through b 0 (Task.create empty))) in
    subst (Ran b)
      (sym (
        ap (λ v. Task.destroy_frame 0 (Task.say "post-resume" v))
          (resume-run_through b 0 none (Task.create empty))
        ∙ destroy_frame-first 0 end d.last.0 d.last.1))
      (record {
        printed =
            append_assoc (run_through b 0 (Task.create empty)).printed ("no waiter\n\n" ∷ [])
              ("post-resume" ∷ [])
            ∙ ap (λ l. l ++ ("no waiter\n\n" ∷ "post-resume" ∷ [])) d.printed;
        made = omega (arith, d.made);
        destroyed = λ h.
            let below : ℕ → ℕ = λ n. to_ℕ (ltb h n) in
            omega (arith, one_frame h 0, below_zero h, d.freed h, ap below d.made);
        at_final = d.bad;
      })
