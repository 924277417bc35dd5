-- ===== src/Service/Returns.antt =====
-- What holds of the value that a run returns, wherever it starts.
use pandora_agent_win.Base.{Bool, true, false, if◌then◌else◌}
use pandora_agent_win.Service.Post.{Post}
use pandora_agent_win.Service.World.{
  World, Run, Outcome, undefined, hung, endless, thrown, done, bound, ◌>>=◌, return,
}
use pandora_agent_win.Base.{◌≡◌}

abbrev pub Gives {ℓ} : {V : Type ℓ} → (V → Type 0) → Outcome V → Type 0
Gives Q o = Post (λ _. Unit) (λ _ v. Q v) o

pub record Returns {ℓ} {V : Type ℓ} (Q : V → Type 0) (m : Run V) : Type 0 where
  pub returns : (w : World) → Gives Q (m w)

Gives-bound {ι κ} :
    {V : Type ι} {W : Type κ} (P : V → Type 0) (Q : W → Type 0) (o : Outcome V) (next : V → Run W)
    → Gives P o
    → ((v : V) → P v → Returns Q (next v))
    → Gives Q (bound o next)
Gives-bound P Q undefined next g r = tt
Gives-bound P Q hung next g r = tt
Gives-bound P Q endless next g r = tt
Gives-bound P Q (thrown w) next g r = tt
Gives-bound P Q (done w v) next g r = (r v g).returns w

pub Returns-bind {ι κ} :
    {V : Type ι} {W : Type κ} (P : V → Type 0) {Q : W → Type 0} {first : Run V} {next : V → Run W}
    → Returns P first
    → ((v : V) → P v → Returns Q (next v))
    → Returns Q (first >>= next)
Returns-bind P {Q} {first} {next} f r = record {
  returns = λ w. Gives-bound P Q (first w) next (f.returns w) r;
}

abbrev pub Anything {ℓ} : {V : Type ℓ} → V → Type 0
Anything v = Unit

Gives-Anything {ℓ} : {V : Type ℓ} (o : Outcome V) → Gives Anything o
Gives-Anything undefined = tt
Gives-Anything hung = tt
Gives-Anything endless = tt
Gives-Anything (thrown w) = tt
Gives-Anything (done w v) = tt

-- A step whose value does not matter.
pub Returns-after {ι κ} :
    {V : Type ι} {W : Type κ} {Q : W → Type 0} (first : Run V) {next : V → Run W}
    → ((v : V) → Returns Q (next v))
    → Returns Q (first >>= next)
Returns-after first {next} r =
    Returns-bind Anything {first = first} {next = next}
      (record { returns = λ w. Gives-Anything (first w) }) (λ v _. r v)

Gives-map {ℓ} :
    {V : Type ℓ} (P Q : V → Type 0) (o : Outcome V) → ((v : V) → P v → Q v) → Gives P o → Gives Q o
Gives-map P Q undefined f g = tt
Gives-map P Q hung f g = tt
Gives-map P Q endless f g = tt
Gives-map P Q (thrown w) f g = tt
Gives-map P Q (done w v) f g = f v g

pub Returns-map {ℓ} :
    {V : Type ℓ} (P : V → Type 0) {Q : V → Type 0} {m : Run V}
    → ((v : V) → P v → Q v)
    → Returns P m
    → Returns Q m
Returns-map P {Q} {m} f r = record { returns = λ w. Gives-map P Q (m w) f (r.returns w) }

pub Returns-return {ℓ} : {V : Type ℓ} {Q : V → Type 0} {v : V} → Q v → Returns Q (return v)
Returns-return q = record { returns = λ w. q }

pub Returns-if {ℓ} :
    {V : Type ℓ} {Q : V → Type 0} (b : Bool) {x y : Run V}
    → Returns Q x
    → Returns Q y
    → Returns Q (if b then x else y)
Returns-if true rx ry = rx
Returns-if false rx ry = ry

pub Returns-value {ℓ} :
    {V : Type ℓ} {Q : V → Type 0} {m : Run V} (w w' : World) (v : V)
    → Returns Q m
    → m w ≡ done w' v
    → Q v
Returns-value {Q} w w' v r e = of_done (rw e at (r.returns w))
  where
    of_done : Gives Q (done w' v) → Q v
    of_done q = q
