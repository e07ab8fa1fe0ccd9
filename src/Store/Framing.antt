-- ===== src/Store/Framing.antt =====
-- What every step of an action keeps between the database before and after: a relation that goes
-- on from one step to the next.
use project_os_agentic_agile.Base.{Bool, true, false, ◌≡◌, refl, ◌∙◌, if◌then◌else◌}
use project_os_agentic_agile.Store.Schema.{Db}
use project_os_agentic_agile.Store.Action.{
  Action, Result, ok, err, Error, ◌>>=◌, pure, raise, gets, modify, require, continue,
}

pub record Framing : Type 1 where
  pub Rel : Db → Db → Type 0
  pub rel_refl : (a : Db) → Rel a a
  pub rel_trans : (a b c : Db) → Rel a b → Rel b c → Rel a c

-- Whether `m` returns or raises, what it leaves is related to what it found.
pub record Frames (F : Framing) {A : Type 0} (m : Action A) : Type 0 where
  pub at : (db : Db) → F.Rel db (m db).1

module _ {F : Framing} {A : Type 0} where
  pub Frames-pure : (a : A) → Frames F (pure a)
  unfolding ◌>>=◌
  Frames-pure a = record { at = F.rel_refl }

  pub Frames-raise : (e : Error) → Frames F (raise {A = A} e)
  unfolding ◌>>=◌
  Frames-raise e = record { at = F.rel_refl }

  pub Frames-gets : (f : Db → A) → Frames F (gets f)
  unfolding ◌>>=◌
  Frames-gets f = record { at = F.rel_refl }

  pub Frames-if :
      (b : Bool) (m n : Action A) → Frames F m → Frames F n → Frames F (if b then m else n)
  Frames-if true m n p q = p
  Frames-if false m n p q = q

module _ {F : Framing} where
  pub Frames-require : (b : Bool) (e : Error) → Frames F (require b e)
  unfolding ◌>>=◌
  Frames-require true e = record { at = F.rel_refl }
  Frames-require false e = record { at = F.rel_refl }

  pub Frames-modify : (f : Db → Db) → ((db : Db) → F.Rel db (f db)) → Frames F (modify f)
  unfolding ◌>>=◌
  Frames-modify f same = record { at = same }

module _ {F : Framing} {A B : Type 0} where
  Frames-continue :
      (r : Result A) (f : A → Action B) → ((a : A) → Frames F (f a)) → Frames F (continue r f)
  Frames-continue (ok a) f q = record { at = λ db. (q a).at db }
  Frames-continue (err e) f q = record { at = F.rel_refl }

  pub Frames-bind :
      (m : Action A) (f : A → Action B)
      → Frames F m
      → ((a : A) → Frames F (f a))
      → Frames F (m >>= f)
  unfolding ◌>>=◌
  Frames-bind m f p q = record {
    at = λ db.
        let (r, db') = m db in F.rel_trans db db' _ (p.at db) ((Frames-continue r f q).at db');
  }

-- An action that only reads.
pub record ReadOnly {A : Type 0} (m : Action A) : Type 0 where
  pub at : (db : Db) → (m db).1 ≡ db

pub Frames-ReadOnly : {F : Framing} {A : Type 0} (m : Action A) → ReadOnly m → Frames F m
Frames-ReadOnly {F} m r = record { at = λ db. rw (r.at db) (F.rel_refl db) }

pub ruleset action_rules =
    (Frames-pure, Frames-raise, Frames-gets, Frames-if, Frames-require, Frames-bind)

-- What holds after a block: after the rest, from what the first action left, or after its exception.
pub bind_after :
    {A B : Type 0} (P : Db → Type 0) (m : Action A) (f : A → Action B) (db : Db)
    → ((a : A) → P (f a (m db).1).1)
    → P (m db).1
    → P ((m >>= f) db).1
unfolding ◌>>=◌
bind_after {A} {B} P m f db next stop = go (m db).0
  where
    go : (r : Result A) → P (continue r f (m db).1).1
    go (ok a) = next a
    go (err e) = stop

-- The same, where the rest may use what the first action returned.
pub bind_ok :
    {A B : Type 0} (P : Db → Type 0) (m : Action A) (f : A → Action B) (db : Db)
    → ((a : A) → (m db).0 ≡ ok a → P (f a (m db).1).1)
    → P (m db).1
    → P ((m >>= f) db).1
unfolding ◌>>=◌
bind_ok {A} {B} P m f db next stop = go (m db).0 refl
  where
    go : (r : Result A) → (m db).0 ≡ r → P (continue r f (m db).1).1
    go (ok a) e = next a e
    go (err x) e = stop

-- Whether it returns or raises, the database is the same.
abbrev pub unchanged : Framing
unchanged = record { Rel = λ a b. b ≡ a; rel_refl = λ a. refl; rel_trans = λ a b c p q. q ∙ p }

-- A block that returns: its first action returned, and so did the rest.
pub bind_inv :
    {A B : Type 0} (m : Action A) (f : A → Action B) (db : Db) (b : B)
    → ((m >>= f) db).0 ≡ ok b
    → (a : A) × ((m db).0 ≡ ok a) × ((f a (m db).1).0 ≡ ok b)
unfolding ◌>>=◌
bind_inv {A} {B} m f db b h = go (m db).0 refl h
  where
    go :
        (r : Result A)
        → (m db).0 ≡ r
        → (continue r f (m db).1).0 ≡ ok b
        → (a : A) × ((m db).0 ≡ ok a) × ((f a (m db).1).0 ≡ ok b)
    go (ok a) e h = (a, e, h)
    go (err x) e h = cc

pub require_inv : (b : Bool) (e : Error) (db : Db) → (require b e db).0 ≡ ok tt → b ≡ true
unfolding ◌>>=◌
require_inv true e db h = refl
require_inv false e db h = cc

-- After an action that returns, a block goes on with what it returned and left.
pub bind_returns :
    {A B : Type 0} (m : Action A) (f : A → Action B) (db : Db) (a : A)
    → (m db).0 ≡ ok a
    → (m >>= f) db ≡ f a (m db).1
unfolding ◌>>=◌
bind_returns m f db a h = rw h refl
