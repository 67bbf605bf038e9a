-- ===== src/Store/Keeps.antt =====
-- What survives an effect, however it ends: `Keeps P m`.
use glass_eqserver.Prelude.{
  ℕ, Bool, true, false, Bytes, Option, none, some, ◌≡◌, refl, if◌then◌else◌,
}
use glass_eqserver.Store.Tables.{Db}
use glass_eqserver.Store.Effect.{
  Env, continue, close_transaction, write_exit, random_exit, split_at, Exit, next, reply, fail, M,
  Response, Failure, ◌>>=◌, pure, respond, throw, or_throw, or_respond, respond_if, throw_if, call,
  try_lock, gets, query, write, execute, read_random, call_nowait, query_nowait, execute_nowait,
  transact,
}
use glass_eqserver.Store.Rules.{AtExit, Ensures}

pub record Keeps (P : Db → Type 0) {A : Type 0} (m : M A) : Type 0 where
  pub at : (d : Db) (v : Env) → P d → P (m d v).1

module _ (P : Db → Type 0) where
  random_lem : (o : Option (Bytes × Bytes)) (d : Db) (v : Env) → P d → P (random_exit o d v).1
  random_lem none d v h = h
  random_lem (some (taken, left)) d v h = h

module _ {A : Type 0} (P : Db → Type 0) where
  close_lem :
      (x : Exit A) (before after : Db) (v : Env)
      → P before
      → AtExit (λ _ d. P d) x after
      → P (close_transaction x before after v).1
  close_lem (next a) before after v h k = k
  close_lem (reply r) before after v h k = h
  close_lem (fail e) before after v h k = h

module _ {P : Db → Type 0} where
  module _ {A : Type 0} where
    pub Keeps-pure : (a : A) → Keeps P (pure a)
    unfolding pure
    Keeps-pure a = record { at = λ d v h. h }

    pub Keeps-respond : (r : Response) → Keeps P (respond {A = A} r)
    unfolding respond
    Keeps-respond r = record { at = λ d v h. h }

    pub Keeps-throw : (e : Failure) → Keeps P (throw {A = A} e)
    unfolding throw
    Keeps-throw e = record { at = λ d v h. h }

    pub Keeps-or_throw : (o : Option A) (e : Failure) → Keeps P (or_throw o e)
    unfolding or_throw
    Keeps-or_throw none e = record { at = λ d v h. h }
    Keeps-or_throw (some a) e = record { at = λ d v h. h }

    pub Keeps-or_respond : (o : Option A) (r : Response) → Keeps P (or_respond o r)
    unfolding or_respond
    Keeps-or_respond none r = record { at = λ d v h. h }
    Keeps-or_respond (some a) r = record { at = λ d v h. h }

  pub Keeps-respond_if : (b : Bool) (r : Response) → Keeps P (respond_if b r)
  unfolding respond_if
  Keeps-respond_if true r = record { at = λ d v h. h }
  Keeps-respond_if false r = record { at = λ d v h. h }

  pub Keeps-throw_if : (b : Bool) (e : Failure) → Keeps P (throw_if b e)
  unfolding throw_if
  Keeps-throw_if true e = record { at = λ d v h. h }
  Keeps-throw_if false e = record { at = λ d v h. h }

  pub Keeps-call : (e : Failure) → Keeps P (call e)
  unfolding call
  Keeps-call e = record { at = λ d v h. h }

  pub Keeps-try_lock : Keeps P try_lock
  unfolding try_lock
  Keeps-try_lock = record { at = λ d v h. h }

  pub Keeps-call_nowait : (r : Response) → Keeps P (call_nowait r)
  unfolding call_nowait
  Keeps-call_nowait r = record { at = λ d v h. h }

  pub Keeps-read_random : (n : ℕ) → Keeps P (read_random n)
  unfolding read_random
  Keeps-read_random n = record { at = λ d v h. random_lem P (split_at n v.entropy) d v h }

module _ {P : Db → Type 0} {A B : Type 0} where
  continue_lem :
      (f : A → M B) (x : Exit A) (d : Db) (v : Env)
      → ((a : A) → Keeps P (f a))
      → P d
      → P (continue x d v f).1
  continue_lem f (next a) d v k h = (k a).at d v h
  continue_lem f (reply r) d v k h = h
  continue_lem f (fail e) d v k h = h

  pub Keeps-bind :
      (m : M A) (f : A → M B) → Keeps P m → ((a : A) → Keeps P (f a)) → Keeps P (m >>= f)
  unfolding ◌>>=◌
  Keeps-bind m f km kf = record {
    at = λ d v h. continue_lem f (m d v).0 (m d v).1 (m d v).2 kf (km.at d v h);
  }

module _ {P : Db → Type 0} {A : Type 0} where
  pub Keeps-gets : (f : Db → A) → Keeps P (gets f)
  unfolding gets
  Keeps-gets f = record { at = λ d v h. h }

  pub Keeps-query : (f : Db → A) → Keeps P (query f)
  unfolding query
  Keeps-query f = Keeps-bind (call _) _ (Keeps-call _) (λ _. Keeps-gets f)

  pub Keeps-query_nowait : (r : Response) (f : Db → A) → Keeps P (query_nowait r f)
  unfolding query_nowait
  Keeps-query_nowait r f = Keeps-bind (call_nowait r) _ (Keeps-call_nowait r) (λ _. Keeps-gets f)

  write_lem :
      (o : Option (Db × A)) (d : Db) (v : Env)
      → ((d' : Db) (a : A) → o ≡ some (d', a) → P d')
      → P d
      → P (write_exit o d v).1
  write_lem none d v k h = h
  write_lem (some (d', a)) d v k h = k d' a refl

  pub Keeps-write :
      (f : Db → Option (Db × A))
      → ((d d' : Db) (a : A) → P d → f d ≡ some (d', a) → P d')
      → Keeps P (write f)
  unfolding write
  Keeps-write f k = record { at = λ d v h. write_lem (f d) d v (λ d' a. k d d' a h) h }

  pub Keeps-execute :
      (f : Db → Option (Db × A))
      → ((d d' : Db) (a : A) → P d → f d ≡ some (d', a) → P d')
      → Keeps P (execute f)
  unfolding execute
  Keeps-execute f k = Keeps-bind (call _) _ (Keeps-call _) (λ _. Keeps-write f k)

  pub Keeps-execute_nowait :
      (r : Response) (f : Db → Option (Db × A))
      → ((d d' : Db) (a : A) → P d → f d ≡ some (d', a) → P d')
      → Keeps P (execute_nowait r f)
  unfolding execute_nowait
  Keeps-execute_nowait r f k =
      Keeps-bind (call_nowait r) _ (Keeps-call_nowait r) (λ _. Keeps-write f k)

  -- A transaction has to keep the property only where it commits.
  pub Keeps-transact :
      (m : M A) → ((d : Db) → P d → Ensures m d (λ _ d'. P d')) → Keeps P (transact m)
  unfolding transact
  Keeps-transact m k = record {
    at = λ d v h. close_lem P (m d v).0 d (m d v).1 (m d v).2 h ((k d h).at v);
  }

  pub Keeps-transact_all : (m : M A) → Keeps P m → Keeps P (transact m)
  unfolding transact
  Keeps-transact_all m k = record {
    at = λ d v h. closed (m d v).0 d (m d v).1 (m d v).2 h (k.at d v h);
  }
    where
      closed :
          (x : Exit A) (before after : Db) (v : Env)
          → P before
          → P after
          → P (close_transaction x before after v).1
      closed (next a) before after v h k = k
      closed (reply r) before after v h k = h
      closed (fail e) before after v h k = h

module _ {P : Db → Type 0} {A : Type 0} where
  pub Keeps-if : (b : Bool) {m n : M A} → Keeps P m → Keeps P n → Keeps P (if b then m else n)
  Keeps-if true k l = k
  Keeps-if false k l = l

pub ruleset keeps_rules = (
  Keeps-pure, Keeps-respond, Keeps-throw, Keeps-or_throw, Keeps-or_respond, Keeps-respond_if,
  Keeps-throw_if, Keeps-call, Keeps-try_lock, Keeps-read_random, Keeps-query, Keeps-query_nowait,
  Keeps-bind, Keeps-if, Keeps-gets,
)
