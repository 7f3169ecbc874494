-- ===== src/Parser/Rules.antt =====
-- Rules for proofs about the steps of Parser.Action: what a step returns and where it leaves the
-- parser, one rule for each way to make a step.
use lugo.Base.{◌≡◌, refl, ap, true, false, Bool, some, ◌∙◌, if◌then◌else◌}
use lugo.Parser.{Parser}
use lugo.Parser.Action.{Action, pure, continue, ◌>>=◌, gets, modify}

-- From `p`, the step `m` returns a value and a parser for which `Q` holds: it does not panic.
pub record Runs {A : Type 0} (m : Action A) (p : Parser) (Q : A → Parser → Type 0) : Type 0 where
  pub value : A
  pub after : Parser
  pub done : m p ≡ some (value, after)
  pub holds : Q value after

module _ {A : Type 0} where
  pub Runs-pure : {p : Parser} {Q : A → Parser → Type 0} (a : A) → Q a p → Runs (pure a) p Q
  unfolding pure
  Runs-pure {p} a h = record { value = a; after = p; done = refl; holds = h }

  pub Runs-map :
      {m : Action A} {p : Parser} {R Q : A → Parser → Type 0}
      → Runs m p R
      → ((a : A) (q : Parser) → R a q → Q a q)
      → Runs m p Q
  Runs-map x f = record {
    value = x.value;
    after = x.after;
    done = x.done;
    holds = f x.value x.after x.holds;
  }

  pub Runs-if :
      {m n : Action A} {p : Parser} {Q : A → Parser → Type 0} (b : Bool)
      → (b ≡ true → Runs m p Q)
      → (b ≡ false → Runs n p Q)
      → Runs (if b then m else n) p Q
  Runs-if true f g = f refl
  Runs-if false f g = g refl

  gets_eq : (f : Parser → A) (p : Parser) → gets f p ≡ some (f p, p)
  unfolding gets
  gets_eq f p = refl

  pub Runs-value :
      (f : Parser → A) {p : Parser} {Q : A → Parser → Type 0} → Q (f p) p → Runs (gets f) p Q
  Runs-value f {p} h = record { value = f p; after = p; done = gets_eq f p; holds = h }

module _ {A B : Type 0} where
  bind_eq : (m : Action A) (k : A → Action B) (p : Parser) → (m >>= k) p ≡ continue k (m p)
  unfolding ◌>>=◌
  bind_eq m k p = refl

  pub Runs-bind :
      {m : Action A} {k : A → Action B} {p : Parser} {R : A → Parser → Type 0}
      {Q : B → Parser → Type 0}
      → Runs m p R
      → ((a : A) (q : Parser) → R a q → Runs (k a) q Q)
      → Runs (m >>= k) p Q
  Runs-bind {m} {k} {p} x f =
      let y = f x.value x.after x.holds in
      record {
        value = y.value;
        after = y.after;
        done = bind_eq m k p ∙ (ap (continue k) x.done ∙ y.done);
        holds = y.holds;
      }

  -- A step that only reads.
  pub Runs-read :
      (m : Action A) (k : A → Action B) {p : Parser} {Q : B → Parser → Type 0} (a : A)
      → m p ≡ some (a, p)
      → Runs (k a) p Q
      → Runs (m >>= k) p Q
  Runs-read m k {p} a e x = record {
    value = x.value;
    after = x.after;
    done = bind_eq m k p ∙ (ap (continue k) e ∙ x.done);
    holds = x.holds;
  }

  pub Runs-gets :
      (f : Parser → A) (k : A → Action B) {p : Parser} {Q : B → Parser → Type 0}
      → Runs (k (f p)) p Q
      → Runs (gets f >>= k) p Q
  Runs-gets f k {p} x = Runs-read _ k (f p) (gets_eq f p) x

modify_eq : (f : Parser → Parser) (p : Parser) → modify f p ≡ some (tt, f p)
unfolding modify
modify_eq f p = refl

pub Runs-modify :
    (f : Parser → Parser) {p : Parser} {Q : Unit {0} → Parser → Type 0}
    → Q tt (f p)
    → Runs (modify f) p Q
Runs-modify f {p} h = record { value = tt; after = f p; done = modify_eq f p; holds = h }
