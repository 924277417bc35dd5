-- ===== src/Service/Kept.antt =====
-- Runs that end, and leave something as it was however they do.
pub mod Files
use pandora_agent_win.Base.{
  ℕ, ◌≡◌, ◌≢◌, refl, ◌∙◌, Bool, true, false, if◌then◌else◌, Option, none, some, [], ◌∷◌,
}
use pandora_agent_win.File.{remove_file}
use pandora_agent_win.Service.World.{
  World, Run, Outcome, undefined, hung, endless, thrown, done, bound, ◌>>=◌, ◌>>◌, ended_by, return,
  throw, get, attempt, read, request, Request,
}
use pandora_agent_win.Text.{Str}

-- What stays: a relation between the world before and after, which adds up.
pub record Frame : Type 1 where
  pub rel : World → World → Type 0
  pub frame_refl : (w : World) → rel w w
  pub frame_trans : {a b c : World} → rel a b → rel b c → rel a c

-- Only the requests may differ.
pub record Same (w w' : World) : Type 0 where
  pub same_conf : w'.conf ≡ w.conf
  pub same_disk : w'.disk ≡ w.disk
  pub same_path : w'.path ≡ w.path

abbrev pub same : Frame
same = record {
  rel = Same;
  frame_refl = λ w. record { same_conf = refl; same_disk = refl; same_path = refl };
  frame_trans = λ s t. record {
    same_conf = t.same_conf ∙ s.same_conf;
    same_disk = t.same_disk ∙ s.same_disk;
    same_path = t.same_path ∙ s.same_path;
  };
}

-- The configuration in memory and one file stay.
pub record SameFile (path : Str) (w w' : World) : Type 0 where
  pub file_conf : w'.conf ≡ w.conf
  pub file_text : w'.disk.file path ≡ w.disk.file path

abbrev pub same_file : Str → Frame
same_file path = record {
  rel = SameFile path;
  frame_refl = λ w. record { file_conf = refl; file_text = refl };
  frame_trans = λ s t. record {
    file_conf = t.file_conf ∙ s.file_conf;
    file_text = t.file_text ∙ s.file_text;
  };
}

abbrev pub Kept {ℓ} : Frame → {V : Type ℓ} → World → Outcome V → Type 0
Kept F w undefined = Unit
Kept F w hung = Unit
Kept F w endless = ⊥
Kept F w (thrown w') = F.rel w w'
Kept F w (done w' v) = F.rel w w'

pub record Keeps {ℓ} (F : Frame) {V : Type ℓ} (m : Run V) : Type 0 where
  pub kept : (w : World) → Kept F w (m w)

module _ (F : Frame) where
  Kept-later {ℓ} : {V : Type ℓ} (a b : World) (o : Outcome V) → F.rel a b → Kept F b o → Kept F a o
  Kept-later a b undefined s k = tt
  Kept-later a b hung s k = tt
  Kept-later a b endless s k = k
  Kept-later a b (thrown w) s k = F.frame_trans s k
  Kept-later a b (done w v) s k = F.frame_trans s k

  pub Kept-attempt {ℓ} :
      {V : Type ℓ} (w : World) (m : Run V) (o : Outcome V)
      → m w ≡ o
      → Kept F w o
      → Kept F w (attempt m w)
  Kept-attempt w m undefined e k = rw e tt
  Kept-attempt w m hung e k = rw e tt
  Kept-attempt w m endless e k = rw e k
  Kept-attempt w m (thrown w') e k = rw e k
  Kept-attempt w m (done w' v) e k = rw e k

module _ {F : Frame} where
  Kept-bound {ι κ} :
      {V : Type ι} {W : Type κ} (w : World) (o : Outcome V) (next : V → Run W)
      → Kept F w o
      → ((v : V) → Keeps F (next v))
      → Kept F w (bound o next)
  Kept-bound w undefined next k ks = tt
  Kept-bound w hung next k ks = tt
  Kept-bound w endless next k ks = k
  Kept-bound w (thrown w') next k ks = k
  Kept-bound w (done w' v) next k ks = Kept-later F w w' (next v w') k ((ks v).kept w')

  pub Keeps-bind {ι κ} :
      {V : Type ι} {W : Type κ} {first : Run V} {next : V → Run W}
      → Keeps F first
      → ((v : V) → Keeps F (next v))
      → Keeps F (first >>= next)
  Keeps-bind {V} {W} {first} {next} k ks = record {
    kept = λ w. Kept-bound w (first w) next (k.kept w) (λ v. ks v);
  }

  pub Keeps-if {ℓ} :
      {V : Type ℓ} (b : Bool) {x y : Run V} → Keeps F x → Keeps F y → Keeps F (if b then x else y)
  Keeps-if true kx ky = kx
  Keeps-if false kx ky = ky

  pub Keeps-return {ℓ} : {V : Type ℓ} (v : V) → Keeps F (return v)
  Keeps-return v = record { kept = λ w. F.frame_refl w }

  pub Keeps-throw {ℓ} : {V : Type ℓ} → Keeps F (throw {V = V})
  Keeps-throw = record { kept = λ w. F.frame_refl w }

  pub get-Keeps : (key : Str) → Keeps F (get key)
  get-Keeps key = record { kept = λ w. F.frame_refl w }

  pub ended_by-Keeps : (c : ℕ) (s : Str) → Keeps F (ended_by c s)
  unfolding ended_by
  ended_by-Keeps c [] = record { kept = λ w. tt }
  ended_by-Keeps c (d ∷ s) = record { kept = λ w. F.frame_refl w }

  pub Keeps-attempt {ℓ} : {V : Type ℓ} {m : Run V} → Keeps F m → Keeps F (attempt m)
  Keeps-attempt {V} {m} k = record { kept = λ w. Kept-attempt F w m (m w) refl (k.kept w) }

  pub Kept-at_end {ℓ} :
      {V : Type ℓ} {m : Run V} {w w' : World} (v : V) → Keeps F m → m w ≡ done w' v → F.rel w w'
  Kept-at_end {w} {w'} v k e = of_end (rw e at (k.kept w))
    where
      of_end : Kept F w (done w' v) → F.rel w w'
      of_end s = s

-- A run that changes requests only keeps each file.
weaker {ℓ} :
    {V : Type ℓ} (path : Str) (w : World) (o : Outcome V)
    → Kept same w o
    → Kept (same_file path) w o
weaker path w undefined k = tt
weaker path w hung k = tt
weaker path w endless k = k
weaker path w (thrown w') k = record {
  file_conf = k.same_conf;
  file_text = λ i. (k.same_disk i).file path;
}
weaker path w (done w' v) k = record {
  file_conf = k.same_conf;
  file_text = λ i. (k.same_disk i).file path;
}

pub Keeps-weaker {ℓ} :
    {V : Type ℓ} {m : Run V} (path : Str) → Keeps same m → Keeps (same_file path) m
Keeps-weaker {m} path k = record { kept = λ w. weaker path w (m w) (k.kept w) }

pub Keeps-request : (path : Str) (r : Request) → Keeps (same_file path) (request r)
Keeps-request path r = record { kept = λ w. record { file_conf = refl; file_text = refl } }
