-- ===== src/Store/Rules.antt =====
-- Reasoning about effects, whatever the outside world answers. `Ensures m d Q`: from the database
-- d, if m goes on, then Q holds of its value and of the database. `Keeps P m`: P survives m,
-- however m ends. An `after_…` rule takes the first step off a `do` block.
use glass_eqserver.Prelude.{ℕ, Bool, true, false, Bytes, Option, none, some, ◌≡◌, refl}
use glass_eqserver.Store.Tables.{Db}
use glass_eqserver.Store.Effect.{
  Answer, success, fault, busy, Env, next_answer, settle, lock_exit, nowait_exit, write_exit,
  random_exit, split_at, continue, close_transaction, Exit, next, reply, fail, M, Response, Failure,
  ◌>>=◌, pure, respond, throw, or_throw, or_respond, respond_if, throw_if, call, try_lock, gets,
  query, write, execute, read_random, call_nowait, query_nowait, transact,
}

abbrev pub AtExit : {A : Type 0} → (A → Db → Type 0) → Exit A → Db → Type 0
AtExit Q (next a) d = Q a d
AtExit Q (reply r) d = Unit
AtExit Q (fail e) d = Unit

pub record Ensures {A : Type 0} (m : M A) (d : Db) (Q : A → Db → Type 0) : Type 0 where
  pub at : (v : Env) → AtExit Q (m d v).0 (m d v).1

module _ {A : Type 0} (Q : A → Db → Type 0) where
  write_lem :
      (o : Option (Db × A)) (d : Db) (v : Env)
      → ((d' : Db) (a : A) → o ≡ some (d', a) → Q a d')
      → AtExit Q (write_exit o d v).0 (write_exit o d v).1
  write_lem none d v h = tt
  write_lem (some (d', a)) d v h = h d' a refl

  close_lem :
      (x : Exit A) (before after : Db) (v : Env)
      → AtExit Q x after
      → AtExit Q (close_transaction x before after v).0 (close_transaction x before after v).1
  close_lem (next a) before after v h = h
  close_lem (reply r) before after v h = tt
  close_lem (fail e) before after v h = tt

module _ {A B : Type 0} (Q : B → Db → Type 0) where
  continue_lem :
      (f : A → M B) (x : Exit A) (d : Db) (v : Env)
      → AtExit (λ a d'. Ensures (f a) d' Q) x d
      → AtExit Q (continue x d v f).0 (continue x d v f).1
  continue_lem f (next a) d v h = h.at v
  continue_lem f (reply r) d v h = tt
  continue_lem f (fail e) d v h = tt

settle_lem :
    (P : Unit {0} → Db → Type 0) (e : Failure) (a : Answer) (d : Db)
    → P tt d
    → AtExit P (settle e a) d
settle_lem P e success d h = h
settle_lem P e fault d h = tt
settle_lem P e busy d h = tt

nowait_lem :
    (P : Unit {0} → Db → Type 0) (r : Response) (a : Answer) (d : Db)
    → P tt d
    → AtExit P (nowait_exit r a) d
nowait_lem P r success d h = h
nowait_lem P r fault d h = tt
nowait_lem P r busy d h = tt

lock_lem :
    (P : Bool → Db → Type 0) (a : Answer) (d : Db) → ((b : Bool) → P b d) → AtExit P (lock_exit a) d
lock_lem P success d h = h true
lock_lem P busy d h = h false
lock_lem P fault d h = tt

random_lem :
    (P : Bytes → Db → Type 0) (o : Option (Bytes × Bytes)) (d : Db) (v : Env)
    → ((bytes : Bytes) → P bytes d)
    → AtExit P (random_exit o d v).0 (random_exit o d v).1
random_lem P none d v h = tt
random_lem P (some (taken, left)) d v h = h taken

module _ {A : Type 0} {Q : A → Db → Type 0} where
  pub Ensures-pure : (a : A) {d : Db} → Q a d → Ensures (pure a) d Q
  unfolding pure
  Ensures-pure a h = record { at = λ v. h }

  pub Ensures-respond : (r : Response) {d : Db} → Ensures (respond r) d Q
  unfolding respond
  Ensures-respond r = record { at = λ v. tt }

  pub Ensures-throw : (e : Failure) {d : Db} → Ensures (throw e) d Q
  unfolding throw
  Ensures-throw e = record { at = λ v. tt }

  pub Ensures-or_throw :
      (o : Option A) (e : Failure) {d : Db}
      → ((a : A) → o ≡ some a → Q a d)
      → Ensures (or_throw o e) d Q
  unfolding or_throw
  Ensures-or_throw none e h = record { at = λ v. tt }
  Ensures-or_throw (some a) e h = record { at = λ v. h a refl }

  pub Ensures-write :
      (f : Db → Option (Db × A)) {d : Db}
      → ((d' : Db) (a : A) → f d ≡ some (d', a) → Q a d')
      → Ensures (write f) d Q
  unfolding write
  Ensures-write f {d} h = record { at = λ v. write_lem Q (f d) d v h }

  pub Ensures-transact : (m : M A) {d : Db} → Ensures m d Q → Ensures (transact m) d Q
  unfolding transact
  Ensures-transact m {d} h = record {
    at = λ v. close_lem Q (m d v).0 d (m d v).1 (m d v).2 (h.at v);
  }

pub Ensures-respond_if :
    {Q : Unit {0} → Db → Type 0} (b : Bool) (r : Response) {d : Db}
    → (b ≡ false → Q tt d)
    → Ensures (respond_if b r) d Q
unfolding respond_if
Ensures-respond_if true r h = record { at = λ v. tt }
Ensures-respond_if false r h = record { at = λ v. h refl }

module _ {A : Type 0} where
  weaken_lem :
      (Q R : A → Db → Type 0) (x : Exit A) (d : Db)
      → ((a : A) (d' : Db) → Q a d' → R a d')
      → AtExit Q x d
      → AtExit R x d
  weaken_lem Q R (next a) d k h = k a d h
  weaken_lem Q R (reply r) d k h = tt
  weaken_lem Q R (fail e) d k h = tt

  pub Ensures-weaken :
      {Q R : A → Db → Type 0} (m : M A) {d : Db}
      → Ensures m d Q
      → ((a : A) (d' : Db) → Q a d' → R a d')
      → Ensures m d R
  Ensures-weaken {Q} {R} m {d} h k = record {
    at = λ v. weaken_lem Q R (m d v).0 (m d v).1 k (h.at v);
  }

module _ {A B : Type 0} {Q : B → Db → Type 0} where
  pub Ensures-bind :
      (m : M A) (f : A → M B) {d : Db}
      → Ensures m d (λ a d'. Ensures (f a) d' Q)
      → Ensures (m >>= f) d Q
  unfolding ◌>>=◌
  Ensures-bind m f {d} h = record {
    at = λ v. continue_lem Q f (m d v).0 (m d v).1 (m d v).2 (h.at v);
  }

  pub after_pure : (a : A) (f : A → M B) {d : Db} → Ensures (f a) d Q → Ensures (pure a >>= f) d Q
  after_pure a f h = Ensures-bind (pure a) f (Ensures-pure a h)

  pub after_or_throw :
      (o : Option A) (e : Failure) (f : A → M B) {d : Db}
      → ((a : A) → o ≡ some a → Ensures (f a) d Q)
      → Ensures (or_throw o e >>= f) d Q
  unfolding or_throw
  after_or_throw none e f h = Ensures-bind _ f (record { at = λ v. tt })
  after_or_throw (some a) e f h = Ensures-bind _ f (record { at = λ v. h a refl })

  pub after_or_respond :
      (o : Option A) (r : Response) (f : A → M B) {d : Db}
      → ((a : A) → o ≡ some a → Ensures (f a) d Q)
      → Ensures (or_respond o r >>= f) d Q
  unfolding or_respond
  after_or_respond none r f h = Ensures-bind _ f (record { at = λ v. tt })
  after_or_respond (some a) r f h = Ensures-bind _ f (record { at = λ v. h a refl })

module _ {B : Type 0} {Q : B → Db → Type 0} where
  pub after_call :
      (e : Failure) (f : Unit {0} → M B) {d : Db} → Ensures (f tt) d Q → Ensures (call e >>= f) d Q
  unfolding call
  after_call e f {d} h =
      Ensures-bind (call e) f
        (record { at = λ v. settle_lem (λ a d'. Ensures (f a) d' Q) e (next_answer v.answers) d h })

  pub after_call_nowait :
      (r : Response) (f : Unit {0} → M B) {d : Db}
      → Ensures (f tt) d Q
      → Ensures (call_nowait r >>= f) d Q
  unfolding call_nowait
  after_call_nowait r f {d} h =
      Ensures-bind (call_nowait r) f
        (record { at = λ v. nowait_lem (λ a d'. Ensures (f a) d' Q) r (next_answer v.answers) d h })

  pub after_try_lock :
      (f : Bool → M B) {d : Db} → ((b : Bool) → Ensures (f b) d Q) → Ensures (try_lock >>= f) d Q
  unfolding try_lock
  after_try_lock f {d} h =
      Ensures-bind try_lock f
        (record { at = λ v. lock_lem (λ b d'. Ensures (f b) d' Q) (next_answer v.answers) d h })

  pub after_respond_if :
      (b : Bool) (r : Response) (f : Unit {0} → M B) {d : Db}
      → (b ≡ false → Ensures (f tt) d Q)
      → Ensures (respond_if b r >>= f) d Q
  unfolding respond_if
  after_respond_if true r f h = Ensures-bind _ f (record { at = λ v. tt })
  after_respond_if false r f h = Ensures-bind _ f (record { at = λ v. h refl })

  pub after_throw_if :
      (b : Bool) (e : Failure) (f : Unit {0} → M B) {d : Db}
      → (b ≡ false → Ensures (f tt) d Q)
      → Ensures (throw_if b e >>= f) d Q
  unfolding throw_if
  after_throw_if true e f h = Ensures-bind _ f (record { at = λ v. tt })
  after_throw_if false e f h = Ensures-bind _ f (record { at = λ v. h refl })

  pub after_read_random :
      (n : ℕ) (f : Bytes → M B) {d : Db}
      → ((bytes : Bytes) → Ensures (f bytes) d Q)
      → Ensures (read_random n >>= f) d Q
  unfolding read_random
  after_read_random n f {d} h =
      Ensures-bind (read_random n) f
        (record { at = λ v. random_lem (λ b d'. Ensures (f b) d' Q) (split_at n v.entropy) d v h })

module _ {A : Type 0} {P : A → Db → Type 0} where
  pub Ensures-query : (f : Db → A) {d : Db} → P (f d) d → Ensures (query f) d P
  unfolding query gets
  Ensures-query f {d} h = after_call _ _ (record { at = λ v. h })

  pub Ensures-execute :
      (f : Db → Option (Db × A)) {d : Db}
      → ((d' : Db) (a : A) → f d ≡ some (d', a) → P a d')
      → Ensures (execute f) d P
  unfolding execute
  Ensures-execute f h = after_call _ _ (Ensures-write f h)

module _ {A B : Type 0} {Q : B → Db → Type 0} where
  pub after_query :
      (f : Db → A) (k : A → M B) {d : Db} → Ensures (k (f d)) d Q → Ensures (query f >>= k) d Q
  after_query f k h = Ensures-bind (query f) k (Ensures-query f h)

  pub after_query_nowait :
      (r : Response) (f : Db → A) (k : A → M B) {d : Db}
      → Ensures (k (f d)) d Q
      → Ensures (query_nowait r f >>= k) d Q
  unfolding query_nowait gets
  after_query_nowait r f k h =
      Ensures-bind (query_nowait r f) k (after_call_nowait r _ (record { at = λ v. h }))

  pub after_execute :
      (f : Db → Option (Db × A)) (k : A → M B) {d : Db}
      → ((d' : Db) (a : A) → f d ≡ some (d', a) → Ensures (k a) d' Q)
      → Ensures (execute f >>= k) d Q
  after_execute f k h = Ensures-bind (execute f) k (Ensures-execute f h)
