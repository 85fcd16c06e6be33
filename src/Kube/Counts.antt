-- ===== src/Kube/Counts.antt =====
-- How many calls of a kind an operation makes, whatever the cluster answers.
use software_distribution_pl.Prelude.{
  ℕ, suc, ◌≡◌, refl, ◌∙◌, subst, Bool, true, false, if◌then◌else◌, List, [], ◌∷◌,
}
use software_distribution_pl.Kube.{
  Call, Trace, Cluster, Result, ok, err, Error, api, invalid, not_found, already_exists, other, M,
  ◌>>=◌, ◌>>◌, pure, fail, read, emit, note, unless_exists, unless_missing, ignore, with_found,
  found_or_gone, each,
}

abbrev pub count : (Call → Bool) → Trace → ℕ
count p [] = 0
count p (c ∷ tr) = let rest = count p tr in if p c then suc rest else rest

-- The operation makes no call of the kind p, on any path.
pub record Avoids {A : Type 0} (p : Call → Bool) (m : M A) : Type 0 where
  pub same : (tr : Trace) → count p (m tr).0 ≡ count p tr

module _ {p : Call → Bool} where
  pub pure-Avoids : {A : Type 0} (a : A) → Avoids p (pure a)
  pure-Avoids a = record { same = λ tr. refl }

  pub fail-Avoids : {A : Type 0} (e : Error) → Avoids p (fail {A = A} e)
  fail-Avoids e = record { same = λ tr. refl }

  pub read-Avoids : {A : Type 0} (q : Trace → Result A) → Avoids p (read q)
  read-Avoids q = record { same = λ tr. refl }

  pub emit-Avoids : (k : Cluster) (c : Call) → p c ≡ false → Avoids p (emit k c)
  emit-Avoids k c h = record { same = λ tr. rw h }

  pub note-Avoids : (c : Call) → p c ≡ false → Avoids p (note c)
  note-Avoids c h = record { same = λ tr. rw h }

  after :
      {A B : Type 0} (r : Result A) (f : A → M B) (tr tr' : Trace)
      → count p tr' ≡ count p tr
      → ((a : A) → Avoids p (f a))
      → (let x : Trace × Result B = elim r [ ok a ↦ f a tr' | err e ↦ (tr', err e) ] in
          count p x.0 ≡ count p tr)
  after (ok a) f tr tr' h k = (k a).same tr' ∙ h
  after (err e) f tr tr' h k = h

  pub >>=-Avoids :
      {A B : Type 0} {m : M A} {f : A → M B}
      → Avoids p m
      → ((a : A) → Avoids p (f a))
      → Avoids p (m >>= f)
  >>=-Avoids {m = m} {f = f} hm hf = record {
    same = λ tr. after (m tr).1 f tr (m tr).0 (hm.same tr) hf;
  }

  pub >>-Avoids :
      {B : Type 0} {m : M (Unit {0})} {n : M B} → Avoids p m → Avoids p n → Avoids p (m >> n)
  >>-Avoids {n = n} hm hn = >>=-Avoids {f = λ _. n} hm (λ _. hn)

  pub unless_exists-Avoids : {m : M (Unit {0})} → Avoids p m → Avoids p (unless_exists m)
  unless_exists-Avoids h = record { same = h.same }

  pub unless_missing-Avoids : {m : M (Unit {0})} → Avoids p m → Avoids p (unless_missing m)
  unless_missing-Avoids h = record { same = h.same }

  pub ignore-Avoids : {m : M (Unit {0})} → Avoids p m → Avoids p (ignore m)
  ignore-Avoids h = record { same = h.same }

  found_or_gone-Avoids :
      {A B : Type 0} (r : Result A) (gone : B) {f : A → M B}
      → ((a : A) → Avoids p (f a))
      → Avoids p (found_or_gone r gone f)
  found_or_gone-Avoids (ok a) gone h = h a
  found_or_gone-Avoids (err (api not_found)) gone h = pure-Avoids _
  found_or_gone-Avoids (err (api already_exists)) gone h = fail-Avoids _
  found_or_gone-Avoids (err (api other)) gone h = fail-Avoids _
  found_or_gone-Avoids (err (invalid s)) gone h = fail-Avoids _

  pub with_found-Avoids :
      {A B : Type 0} (q : Trace → Result A) (gone : B) {f : A → M B}
      → ((a : A) → Avoids p (f a))
      → Avoids p (with_found q gone f)
  with_found-Avoids q gone h = record { same = λ tr. (found_or_gone-Avoids (q tr) gone h).same tr }

  pub each-Avoids :
      {A : Type 0} {f : A → M (Unit {0})} (xs : List A)
      → ((a : A) → Avoids p (f a))
      → Avoids p (each f xs)
  unfolding each
  each-Avoids [] h = pure-Avoids tt
  each-Avoids (x ∷ xs) h = >>-Avoids (h x) (each-Avoids xs h)

  pub if-Avoids :
      {A : Type 0} (b : Bool) {m n : M A} → Avoids p m → Avoids p n → Avoids p (if b then m else n)
  if-Avoids true hm hn = hm
  if-Avoids false hm hn = hn

pub ruleset avoids = (
  pure-Avoids, fail-Avoids, read-Avoids, emit-Avoids, note-Avoids, >>=-Avoids, >>-Avoids,
  unless_exists-Avoids, unless_missing-Avoids, ignore-Avoids, with_found-Avoids, each-Avoids,
  if-Avoids,
)

-- A value that the operation returns satisfies Q.
pub record Returns {A : Type 0} (Q : A → Type 0) (m : M A) : Type 0 where
  pub holds : (tr : Trace) (a : A) → (m tr).1 ≡ ok a → Q a

ok_injective : {A : Type 0} {a b : A} → ok a ≡ ok b → a ≡ b
ok_injective e = cc

module _ {A : Type 0} {Q : A → Type 0} where
  pub pure-Returns : (a : A) → Q a → Returns Q (pure a)
  pure-Returns a h = record { holds = λ tr b e. subst Q (ok_injective e) h }

  of_bind :
      {B : Type 0} (r : Result B) (f : B → M A) (tr : Trace) (a : A)
      → ((b : B) → Returns Q (f b))
      → (let x : Trace × Result A = elim r [ ok b ↦ f b tr | err e ↦ (tr, err e) ] in x.1 ≡ ok a)
      → Q a
  of_bind (ok b) f tr a h e = (h b).holds tr a e
  of_bind (err x) f tr a h e = absurd (cc)

  pub >>=-Returns :
      {B : Type 0} (m : M B) {f : B → M A} → ((b : B) → Returns Q (f b)) → Returns Q (m >>= f)
  >>=-Returns m {f = f} h = record { holds = λ tr a e. of_bind (m tr).1 f (m tr).0 a h e }

  pub >>-Returns : (m : M (Unit {0})) {n : M A} → Returns Q n → Returns Q (m >> n)
  >>-Returns m {n = n} h = >>=-Returns m {f = λ _. n} (λ _. h)

  pub if-Returns :
      (b : Bool) {m n : M A}
      → (b ≡ true → Returns Q m)
      → (b ≡ false → Returns Q n)
      → Returns Q (if b then m else n)
  if-Returns true hm hn = hm refl
  if-Returns false hm hn = hn refl

module _ {p : Call → Bool} {A B : Type 0} (Q : A → Type 0) where
  after_return :
      (r : Result A) (f : A → M B) (tr tr' : Trace)
      → count p tr' ≡ count p tr
      → ((a : A) → r ≡ ok a → Avoids p (f a))
      → (let x : Trace × Result B = elim r [ ok a ↦ f a tr' | err e ↦ (tr', err e) ] in
          count p x.0 ≡ count p tr)
  after_return (ok a) f tr tr' h k = (k a refl).same tr' ∙ h
  after_return (err e) f tr tr' h k = h

  -- What follows a step has only to avoid the calls at the values that the step returns.
  pub >>=-Avoids_returned :
      {m : M A} {f : A → M B}
      → Avoids p m
      → Returns Q m
      → ((a : A) → Q a → Avoids p (f a))
      → Avoids p (m >>= f)
  >>=-Avoids_returned {m = m} {f = f} hm q hf = record {
    same = λ tr. after_return (m tr).1 f tr (m tr).0 (hm.same tr) (λ a e. hf a (q.holds tr a e));
  }
