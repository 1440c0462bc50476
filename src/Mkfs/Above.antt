-- ===== src/Mkfs/Above.antt =====
-- What mkfs writes from a place on leaves the bytes before that place as they are.
use nuclear_armageddon.Prelude.{
  ℕ, ◌≤◌, ◌<◌, ◌≡◌, refl, ap, ◌∙◌, subst, arith, Bool, true, false, Option, none, some, List, inl,
}
use nuclear_armageddon.Exfat.{Stream, IsStream}
use nuclear_armageddon.Exfat.Bytes.{write_bytes_outside}
use nuclear_armageddon.Mkfs.{W, after, ◌>>=◌, pure, stop, require, attempt}

-- A successful action taken apart.
module _ {D A B : Type 0} where
  pub record Parts (m : W D A) (f : A → W D B) (d : D) (b : B) (last : D) : Type 0 where
    pub value : A
    pub middle : D
    pub first : m d ≡ (some value, middle)
    pub second : f value middle ≡ (some b, last)

  parts_of :
      (m : W D A) (f : A → W D B) (d : D) (b : B) (last : D) (r : Option A × D)
      → m d ≡ r
      → after r.0 r.1 f ≡ (some b, last)
      → Parts m f d b last
  parts_of m f d b last (none, d') e run = cc
  parts_of m f d b last (some a, d') e run = record {
    value = a;
    middle = d';
    first = e;
    second = run;
  }

  pub parts :
      (m : W D A) (f : A → W D B) (d : D) (b : B) (last : D)
      → (m >>= f) d ≡ (some b, last)
      → Parts m f d b last
  parts m f d b last run = parts_of m f d b last (m d) refl run

-- A call that succeeds.
module _ {D : Type 0} where
  pub record Succeeds (call : D → Bool × D) (d last : D) : Type 0 where
    pub done : (call d).0 ≡ true
    pub ends : (call d).1 ≡ last

  Succeeds-of :
      (call : D → Bool × D) (d last : D) (r : Bool × D)
      → call d ≡ r
      → require r.0 r.1 ≡ (some tt, last)
      → Succeeds call d last
  Succeeds-of call d last (true, d') e run = record {
    done = ap (λ r. r.0) e;
    ends = ap (λ r. r.1) e ∙ ap (λ r. r.1) run;
  }
  Succeeds-of call d last (false, d') e run = cc

  pub attempted :
      (call : D → Bool × D) (d last : D) → attempt call d ≡ (some tt, last) → Succeeds call d last
  attempted call d last run = Succeeds-of call d last (call d) refl run

module _ {D : Type 0} (view : D → ℕ → ℕ) (place : D → ℕ) (n : ℕ) where
  -- The device after writes at `n` or later.
  pub record Above (d last : D) : Type 0 where
    pub behind : n ≤ place last
    pub kept : (o : ℕ) → o < n → view last o ≡ view d o

  unfoldable pub Safe : {A : Type 0} → W D A → Type 0
  Safe {A} m = (d : D) (a : A) (last : D) → n ≤ place d → m d ≡ (some a, last) → Above d last

  -- What comes after such an action.
  pub Above-then : (d middle last : D) → Above d middle → Above middle last → Above d last
  Above-then d middle last x y = record { behind = y.behind; kept = λ o h. y.kept o h ∙ x.kept o h }

  pub then-Safe :
      {A B : Type 0} (m : W D A) (f : A → W D B) → Safe m → ((a : A) → Safe (f a)) → Safe (m >>= f)
  unfolding Safe
  then-Safe m f x y d b last h run =
      let p = parts m f d b last run in
      let first = x d p.value p.middle h p.first in
      Above-then d p.middle last first (y p.value p.middle b last first.behind p.second)

  pub pure-Safe : {A : Type 0} (a : A) → Safe (pure {D = D} a)
  unfolding Safe
  pure-Safe a d b last h run =
      subst (Above d) (ap (λ r. r.1) run) (record { behind = h; kept = λ o u. refl })

  pub stop-Safe : (A : Type 0) → Safe (stop {D = D} {A = A})
  unfolding Safe
  stop-Safe A d b last h run = cc

  module _ (io : Stream D) (is : IsStream io view place) where
    pub write-Safe : (buffer : List ℕ) → Safe (attempt (io.write buffer))
    unfolding Safe
    write-Safe buffer d a last h run =
        let s = attempted (io.write buffer) d last run in
        subst (Above d) s.ends (record {
          behind = omega (arith, h, is.moved buffer d s.done);
          kept = λ o u.
              ap (λ v. v o) (is.stored buffer d s.done)
              ∙ write_bytes_outside buffer (view d) (place d) o (inl (omega (arith, h, u)));
        })

    pub seek-Safe : (offset : ℕ) → n ≤ offset → Safe (attempt (io.seek offset))
    unfolding Safe
    seek-Safe offset le d a last h run =
        let s = attempted (io.seek offset) d last run in
        subst (Above d) s.ends (record {
          behind = omega (arith, le, is.sought offset d s.done);
          kept = λ o u. ap (λ v. v o) (is.seek_kept offset d);
        })
