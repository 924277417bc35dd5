-- ===== src/Service/Post.antt =====
-- What holds at the end of a run: one thing where it threw, another one with its value.
use pandora_agent_win.Base.{◌≡◌, Option, none, some}
use pandora_agent_win.Service.Kept.{Frame, Kept}
use pandora_agent_win.Service.World.{
  World, Run, Outcome, undefined, hung, endless, thrown, done, bound, attempt,
}

abbrev pub Post {ℓ} : {V : Type ℓ} → (World → Type 0) → (World → V → Type 0) → Outcome V → Type 0
Post E Q undefined = Unit
Post E Q hung = Unit
Post E Q endless = Unit
Post E Q (thrown w) = E w
Post E Q (done w v) = Q w v

-- After a step that keeps a frame.
pub Post-Kept {ι κ} :
    {V : Type ι} {W : Type κ} (F : Frame) (E : World → Type 0) (Q : World → W → Type 0) (w : World)
    (o : Outcome V) (next : V → Run W)
    → Kept F w o
    → ((w' : World) → F.rel w w' → E w')
    → ((w' : World) (v : V) → F.rel w w' → Post E Q (next v w'))
    → Post E Q (bound o next)
Post-Kept F E Q w undefined next k e q = tt
Post-Kept F E Q w hung next k e q = tt
Post-Kept F E Q w endless next k e q = absurd k
Post-Kept F E Q w (thrown w') next k e q = e w' k
Post-Kept F E Q w (done w' v) next k e q = q w' v k

-- After a `try` block.
pub Post-attempt {ι κ} :
    {V : Type ι} {W : Type κ} (E : World → Type 0) (Q : World → V → Type 0) (E' : World → Type 0)
    (Q' : World → W → Type 0) (m : Run V) (w : World) (o : Outcome V) (next : Option V → Run W)
    → m w ≡ o
    → Post E Q o
    → ((w' : World) → E w' → Post E' Q' (next none w'))
    → ((w' : World) (v : V) → Q w' v → Post E' Q' (next (some v) w'))
    → Post E' Q' (bound (attempt m w) next)
Post-attempt E Q E' Q' m w undefined next e p f g = rw e tt
Post-attempt E Q E' Q' m w hung next e p f g = rw e tt
Post-attempt E Q E' Q' m w endless next e p f g = rw e tt
Post-attempt E Q E' Q' m w (thrown w') next e p f g = rw e (f w' p)
Post-attempt E Q E' Q' m w (done w' v) next e p f g = rw e (g w' v p)
