-- ===== src/Store/Reads.antt =====
-- Steps that write nothing, and properties that a step keeps, as rules for `Ensures`.
use glass_eqserver.Prelude.{Bool, true, false, ◌≡◌, refl, subst, if◌then◌else◌}
use glass_eqserver.Store.Tables.{Db}
use glass_eqserver.Store.Effect.{Env, Exit, next, reply, fail, M, ◌>>=◌, continue}
use glass_eqserver.Store.Rules.{AtExit, Ensures, Ensures-bind}
use glass_eqserver.Store.Keeps.{Keeps}

-- A step that keeps every property writes nothing.
abbrev pub WritesNothing : {A : Type 0} → M A → Type 1
WritesNothing m = (P : Db → Type 0) → Keeps P m

at_exit : {A : Type 0} (P : Db → Type 0) (x : Exit A) (d : Db) → P d → AtExit (λ _ d'. P d') x d
at_exit P (next a) d h = h
at_exit P (reply r) d h = tt
at_exit P (fail e) d h = tt

module _ {A : Type 0} where
  pub Ensures-kept :
      (P : Db → Type 0) (m : M A) {d : Db} → Keeps P m → P d → Ensures m d (λ _ d'. P d')
  Ensures-kept P m {d} k h = record { at = λ v. at_exit P (m d v).0 (m d v).1 (k.at d v h) }

  pub Ensures-if :
      {Q : A → Db → Type 0} (b : Bool) (m n : M A) {d : Db}
      → (b ≡ true → Ensures m d Q)
      → (b ≡ false → Ensures n d Q)
      → Ensures (if b then m else n) d Q
  Ensures-if true m n h k = h refl
  Ensures-if false m n h k = k refl

module _ {A B : Type 0} {Q : B → Db → Type 0} where
  read_exit :
      (f : A → M B) (d : Db) (x : Exit A) (d' : Db)
      → d ≡ d'
      → ((a : A) → Ensures (f a) d Q)
      → AtExit (λ a d'. Ensures (f a) d' Q) x d'
  read_exit f d (next a) d' e h = subst (λ y. Ensures (f a) y Q) e (h a)
  read_exit f d (reply r) d' e h = tt
  read_exit f d (fail x) d' e h = tt

  pub after_read :
      (m : M A) (f : A → M B) {d : Db}
      → WritesNothing m
      → ((a : A) → Ensures (f a) d Q)
      → Ensures (m >>= f) d Q
  after_read m f {d} k h =
      Ensures-bind m f
        (record { at = λ v. read_exit f d (m d v).0 (m d v).1 ((k (λ y. d ≡ y)).at d v refl) h })

  kept_exit :
      (P : Db → Type 0) (f : A → M B) (x : Exit A) (d' : Db)
      → P d'
      → ((a : A) (d' : Db) → P d' → Ensures (f a) d' Q)
      → AtExit (λ a d'. Ensures (f a) d' Q) x d'
  kept_exit P f (next a) d' p h = h a d' p
  kept_exit P f (reply r) d' p h = tt
  kept_exit P f (fail x) d' p h = tt

  pub after_kept :
      (P : Db → Type 0) (m : M A) (f : A → M B) {d : Db}
      → Keeps P m
      → P d
      → ((a : A) (d' : Db) → P d' → Ensures (f a) d' Q)
      → Ensures (m >>= f) d Q
  after_kept P m f {d} k p h =
      Ensures-bind m f (record { at = λ v. kept_exit P f (m d v).0 (m d v).1 (k.at d v p) h })

-- What a property needs in order to hold of the database that a sequence leaves.
module _ {A B : Type 0} (P : Db → Type 0) where
  left_exit :
      (f : A → M B) (x : Exit A) (d : Db) (v : Env)
      → P d
      → AtExit (λ a d'. (w : Env) → P (f a d' w).1) x d
      → P (continue x d v f).1
  left_exit f (next a) d v h k = k v
  left_exit f (reply r) d v h k = h
  left_exit f (fail e) d v h k = h

  pub left_by_bind :
      (m : M A) (f : A → M B) (d : Db) (v : Env)
      → P (m d v).1
      → Ensures m d (λ a d'. (w : Env) → P (f a d' w).1)
      → P ((m >>= f) d v).1
  unfolding ◌>>=◌
  left_by_bind m f d v h k = left_exit f (m d v).0 (m d v).1 (m d v).2 h (k.at v)

-- A step whose value is known of, and what is kept after it.
module _ {A B : Type 0} {P : Db → Type 0} where
  known_exit :
      (K : A → Type 0) (f : A → M B) (x : Exit A) (d : Db) (v : Env)
      → P d
      → AtExit (λ a _. K a) x d
      → ((a : A) → K a → Keeps P (f a))
      → P (continue x d v f).1
  known_exit K f (next a) d v h k g = (g a k).at d v h
  known_exit K f (reply r) d v h k g = h
  known_exit K f (fail e) d v h k g = h

  pub Keeps-known :
      (K : A → Type 0) (m : M A) (f : A → M B)
      → Keeps P m
      → ((d : Db) → P d → Ensures m d (λ a _. K a))
      → ((a : A) → K a → Keeps P (f a))
      → Keeps P (m >>= f)
  unfolding ◌>>=◌
  Keeps-known K m f k e g = record {
    at = λ d v h. known_exit K f (m d v).0 (m d v).1 (m d v).2 (k.at d v h) ((e d h).at v) g;
  }

module _ {A : Type 0} {P : Db → Type 0} where
  pub Keeps-branch :
      (b : Bool) (m n : M A)
      → (b ≡ true → Keeps P m)
      → (b ≡ false → Keeps P n)
      → Keeps P (if b then m else n)
  Keeps-branch true m n k l = k refl
  Keeps-branch false m n k l = l refl
