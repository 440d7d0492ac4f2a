-- ===== src/Queue/Delayed/Timers.antt =====
-- The timers of a map of entries: each lives, and no two entries share one.
use uscxml.Prelude.{
  ℕ, ◌≡◌, ap, ◌∙◌, sym, subst, Bool, true, false, not, ◌&&◌, ◌||◌, ◌==◌, ==_iff, Bool-cases, inl,
  inr, some, List, [], ◌∷◌, Text, find, put, erase, text_eq, text_lt, arith,
}
use uscxml.Queue.Delayed.{Libevent, Timeval, CallbackData, Delayed}

-- What libevent documents: a timer lives from `event_new` to `event_free`, and it is a fault to add,
-- delete or free a timer that does not live.
pub record Timers {W : Type 0} (lib : Libevent W) : Type 0 where
  pub live : W → ℕ → Bool
  pub faulty : W → Bool
  pub new_unused : (u : Text) (w : W) → live w (lib.event_new u w).0 ≡ false
  pub new_live :
      (u : Text) (w : W) (x : ℕ)
      → live (lib.event_new u w).1 x ≡ (x == (lib.event_new u w).0 || live w x)
  pub add_live : (h : ℕ) (t : Timeval) (w : W) (x : ℕ) → live (lib.event_add h t w) x ≡ live w x
  pub del_live : (h : ℕ) (w : W) (x : ℕ) → live (lib.event_del h w) x ≡ live w x
  pub free_live : (h : ℕ) (w : W) (x : ℕ) → live (lib.event_free h w) x ≡ (not (x == h) && live w x)
  pub time_live : (w : W) (x : ℕ) → live (lib.gettimeofday w).1 x ≡ live w x
  pub new_faulty : (u : Text) (w : W) → faulty (lib.event_new u w).1 ≡ faulty w
  pub add_faulty :
      (h : ℕ) (t : Timeval) (w : W) → faulty (lib.event_add h t w) ≡ (faulty w || not (live w h))
  pub del_faulty : (h : ℕ) (w : W) → faulty (lib.event_del h w) ≡ (faulty w || not (live w h))
  pub free_faulty : (h : ℕ) (w : W) → faulty (lib.event_free h w) ≡ (faulty w || not (live w h))
  pub time_faulty : (w : W) → faulty (lib.gettimeofday w).1 ≡ faulty w

-- No entry has the timer `h`.
unfoldable pub Unused : ℕ → List (Text × CallbackData) → Type 0
Unused h [] = Unit {0}
Unused h ((k, d) ∷ m) = ((h == d.event) ≡ false) × Unused h m

pub some_inj {ℓ} : {A : Type ℓ} (a b : A) → some a ≡ some b → a ≡ b
some_inj a b h = cc

==_sym : (a b : ℕ) → (a == b) ≡ false → (b == a) ≡ false
==_sym a b h = ground arith

unlike : (f : ℕ → Bool) (a b : ℕ) → f a ≡ false → f b ≡ true → (a == b) ≡ false
unlike f a b p q = elim (Bool-cases (a == b)) [
  | inl same ↦ absurd (apart (sym p ∙ ap f ((==_iff a b).0 same) ∙ q))
  | inr other ↦ other
]
  where
    apart : false ≡ true → ⊥
    apart h = cc

pub Unused-find :
    (h : ℕ) (k : Text) (d : CallbackData) (m : List (Text × CallbackData))
    → Unused h m
    → find k m ≡ some d
    → (h == d.event) ≡ false
unfolding Unused find
Unused-find h k d [] u f = absurd (cc)
Unused-find h k d ((j, e) ∷ m) (n, u) f = elim (Bool-cases (text_eq j k)) [
  | inl same ↦ subst (λ x. (h == CallbackData.event x) ≡ false) (some_inj e d (rw same at f)) n
  | inr other ↦ Unused-find h k d m u (rw other at f)
]

Unused-erase :
    (h : ℕ) (k : Text) (m : List (Text × CallbackData)) → Unused h m → Unused h (erase k m)
unfolding Unused erase
Unused-erase h k [] u = tt
Unused-erase h k ((j, e) ∷ m) (n, u) = elim (Bool-cases (text_eq j k)) [
  | inl same ↦ rw same (Unused-erase h k m u)
  | inr other ↦ rw other ((n, Unused-erase h k m u))
]

Unused-put :
    (h : ℕ) (k : Text) (d : CallbackData) (m : List (Text × CallbackData))
    → (h == d.event) ≡ false
    → Unused h m
    → Unused h (put k d m)
unfolding Unused put
Unused-put h k d [] n u = (n, tt)
Unused-put h k d ((j, e) ∷ m) n (p, u) = elim (Bool-cases (text_eq j k)) [
  | inl same ↦ rw same ((n, u))
  | inr other ↦ elim (Bool-cases (text_lt k j)) [
    | inl less ↦ rw (other, less) ((n, (p, u)))
    | inr more ↦ rw (other, more) ((p, Unused-put h k d m n u))
  ]
]

module _ {W : Type 0} (lib : Libevent W) (timers : Timers lib) where
  -- The timers of the entries live, and no two entries share one.
  unfoldable pub Sound : List (Text × CallbackData) → W → Type 0
  Sound [] w = Unit {0}
  Sound ((k, d) ∷ m) w = (timers.live w d.event ≡ true) × (Unused d.event m × Sound m w)

  -- The invariant: besides, no fault has happened.
  unfoldable pub IsSound : Delayed W → Type 0
  IsSound s = (timers.faulty s.world ≡ false) × Sound s.callback_data s.world

  pub Sound-more :
      (m : List (Text × CallbackData)) (v w : W)
      → ((x : ℕ) → timers.live v x ≡ true → timers.live w x ≡ true)
      → Sound m v
      → Sound m w
  unfolding Sound
  Sound-more [] v w more s = tt
  Sound-more ((k, d) ∷ m) v w more (l, (u, s)) = (more d.event l, (u, Sound-more m v w more s))

  Sound-free :
      (m : List (Text × CallbackData)) (h : ℕ) (w : W)
      → Unused h m
      → Sound m w
      → Sound m (lib.event_free h w)
  unfolding Sound Unused
  Sound-free [] h w u s = tt
  Sound-free ((k, d) ∷ m) h w (n, u) (l, (v, s)) =
      (rw (timers.free_live h w d.event, ==_sym h d.event n) l, (v, Sound-free m h w u s))

  pub Sound-Unused :
      (m : List (Text × CallbackData)) (h : ℕ) (w : W)
      → timers.live w h ≡ false
      → Sound m w
      → Unused h m
  unfolding Sound Unused
  Sound-Unused [] h w l s = tt
  Sound-Unused ((k, d) ∷ m) h w l (e, (u, s)) =
      (unlike (timers.live w) h d.event l e, Sound-Unused m h w l s)

  -- `event_del`, then `event_free`
  abbrev pub release : ℕ → W → W
  release h w = lib.event_free h (lib.event_del h w)

  pub Sound-release :
      (m : List (Text × CallbackData)) (h : ℕ) (w : W)
      → Unused h m
      → Sound m w
      → Sound m (release h w)
  Sound-release m h w u s =
      Sound-free m h (lib.event_del h w) u
        (Sound-more m w (lib.event_del h w) (λ x l. timers.del_live h w x ∙ l) s)

  pub release_faulty :
      (h : ℕ) (w : W)
      → timers.live w h ≡ true
      → timers.faulty w ≡ false
      → timers.faulty (release h w) ≡ false
  release_faulty h w l f =
      rw (
        timers.free_faulty h (lib.event_del h w),
        timers.del_faulty h w,
        timers.del_live h w h,
        l,
        f,
      )

  pub release_live :
      (h x : ℕ) (w : W)
      → (x == h) ≡ false
      → timers.live w x ≡ true
      → timers.live (release h w) x ≡ true
  release_live h x w n l = rw (timers.free_live h (lib.event_del h w) x, timers.del_live h w x, n) l

  pub Sound-drop :
      (k : Text) (m : List (Text × CallbackData)) (w : W) → Sound m w → Sound (erase k m) w
  unfolding Sound erase
  Sound-drop k [] w s = tt
  Sound-drop k ((j, e) ∷ m) w (l, (u, s)) = elim (Bool-cases (text_eq j k)) [
    | inl same ↦ rw same (Sound-drop k m w s)
    | inr other ↦ rw other ((l, (Unused-erase e.event k m u, Sound-drop k m w s)))
  ]

  pub Sound-erase :
      (k : Text) (d : CallbackData) (m : List (Text × CallbackData)) (w : W)
      → find k m ≡ some d
      → Sound m w
      → Sound (erase k m) (release d.event w)
  unfolding Sound find erase
  Sound-erase k d [] w f s = tt
  Sound-erase k d ((j, e) ∷ m) w f (l, (u, s)) = elim (Bool-cases (text_eq j k)) [
    | inl same ↦ rw same (
        Sound-release (erase k m) d.event w
          (subst (λ x. Unused (CallbackData.event x) (erase k m)) (some_inj e d (rw same at f))
            (Unused-erase e.event k m u))
          (Sound-drop k m w s))
    | inr other ↦ rw other (
      release_live d.event e.event w (Unused-find e.event k d m u (rw other at f)) l,
      (Unused-erase e.event k m u, Sound-erase k d m w (rw other at f) s),
    )
  ]

  pub Sound-find :
      (k : Text) (d : CallbackData) (m : List (Text × CallbackData)) (w : W)
      → find k m ≡ some d
      → Sound m w
      → timers.live w d.event ≡ true
  unfolding Sound find
  Sound-find k d [] w f s = absurd (cc)
  Sound-find k d ((j, e) ∷ m) w f (l, (u, s)) = elim (Bool-cases (text_eq j k)) [
    | inl same ↦
        subst (λ x. timers.live w (CallbackData.event x) ≡ true) (some_inj e d (rw same at f)) l
    | inr other ↦ Sound-find k d m w (rw other at f) s
  ]

  pub Sound-put :
      (k : Text) (d : CallbackData) (m : List (Text × CallbackData)) (w : W)
      → timers.live w d.event ≡ true
      → Unused d.event m
      → Sound m w
      → Sound (put k d m) w
  unfolding Sound put Unused
  Sound-put k d [] w l u s = (l, (tt, tt))
  Sound-put k d ((j, e) ∷ m) w l (n, u) (p, (v, s)) = elim (Bool-cases (text_eq j k)) [
    | inl same ↦ rw same ((l, (u, s)))
    | inr other ↦ elim (Bool-cases (text_lt k j)) [
      | inl less ↦ rw (other, less) ((l, ((n, u), (p, (v, s)))))
      | inr more ↦
          rw (other, more)
            ((p, (Unused-put e.event k d m (==_sym d.event e.event n) v, Sound-put k d m w l u s)))
    ]
  ]
