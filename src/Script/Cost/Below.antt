-- ===== src/Script/Cost/Below.antt =====
-- Steps that do what another step does wherever that one does not run out of fuel.
use go_apla.Prelude.{Bool, true, false, ◌≡◌, refl, ap, ◌∙◌, arith, if◌then◌else◌}
use go_apla.Script.Value.{Numbers, Err}
use go_apla.Script.Exec.{
  Outcome, done, failed, panicked, overflowed, resliced, out_of_fuel, continue, catch, finally,
  ◌>>=◌, ◌>>◌,
}
use go_apla.Script.Runtime.{State, Step}
use go_apla.Script.Keeps.{ran_out}

module _ ⦃num : Numbers⦄ where
  -- Where the first step does not run out, the second one does the same.
  pub record Below {A : Type 0} (x y : Step A) : Type 0 where
    pub at : (s : State) → ran_out (x s).0 ≡ false → y s ≡ x s

  pub Below-same : {A : Type 0} (x : Step A) → Below x x
  Below-same x = record { at = λ s h. refl }

  Below-continue :
      {A B : Type 0} (o : Outcome Err A) (t : State) (p : Outcome Err A × State) (f g : A → Step B)
      → (ran_out o ≡ false → p ≡ (o, t))
      → ((a : A) → Below (f a) (g a))
      → ran_out (continue o f t).0 ≡ false
      → continue p.0 g p.1 ≡ continue o f t
  Below-continue (done a) t p f g h k e = ap (λ q. continue q.0 g q.1) (h refl) ∙ (k a).at t e
  Below-continue (failed x) t p f g h k e = ap (λ q. continue q.0 g q.1) (h refl)
  Below-continue panicked t p f g h k e = ap (λ q. continue q.0 g q.1) (h refl)
  Below-continue overflowed t p f g h k e = ap (λ q. continue q.0 g q.1) (h refl)
  Below-continue resliced t p f g h k e = ap (λ q. continue q.0 g q.1) (h refl)
  Below-continue out_of_fuel t p f g h k e = ground (arith, e)

  pub Below-bind :
      {A B : Type 0} (x y : Step A) (f g : A → Step B)
      → Below x y
      → ((a : A) → Below (f a) (g a))
      → Below (x >>= f) (y >>= g)
  unfolding ◌>>=◌
  Below-bind x y f g h k = record {
    at = λ s e. Below-continue (x s).0 (x s).1 (y s) f g (h.at s) k e;
  }

  pub Below-then :
      {A B : Type 0} (x y : Step A) (v w : Step B) → Below x y → Below v w → Below (x >> v) (y >> w)
  unfolding ◌>>◌
  Below-then x y v w h k = Below-bind x y (λ _. v) (λ _. w) h (λ _. k)

  pub Below-if :
      {A : Type 0} (b : Bool) (x y v w : Step A)
      → Below x y
      → Below v w
      → Below (if b then x else v) (if b then y else w)
  Below-if true x y v w h k = h
  Below-if false x y v w h k = k

  caught_out :
      {A : Type 0} (o : Outcome Err A) (t s : State) (f : Err → A)
      → ran_out (catch (λ _. (o, t)) f s).0 ≡ false
      → ran_out o ≡ false
  unfolding catch
  caught_out (done a) t s f e = refl
  caught_out (failed x) t s f e = refl
  caught_out panicked t s f e = refl
  caught_out overflowed t s f e = refl
  caught_out resliced t s f e = refl
  caught_out out_of_fuel t s f e = e

  pub Below-catch :
      {A : Type 0} (x y : Step A) (f : Err → A) → Below x y → Below (catch x f) (catch y f)
  unfolding catch
  Below-catch x y f h = record {
    at = λ s e. ap (λ p. catch (λ _. p) f s) (h.at s (caught_out (x s).0 (x s).1 s f e));
  }

  pub Below-finally :
      {A : Type 0} (x y : Step A) (f : State → State)
      → Below x y
      → Below (finally x f) (finally y f)
  unfolding finally
  Below-finally x y f h = record { at = λ s e. ap (λ p. (p.0, f p.1)) (h.at s e) }
