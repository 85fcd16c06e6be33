-- ===== src/Kube/Writes.antt =====
-- Which calls an operation makes, whatever the cluster answers.
use mathlib.Core.List.{append_assoc}
use software_distribution_pl.Prelude.{
  ◌≡◌, refl, sym, ap, ◌∙◌, Bool, true, false, if◌then◌else◌, List, [], ◌∷◌, ◌++◌,
}
use software_distribution_pl.Kube.{
  Call, Trace, Cluster, Result, ok, err, Error, api, invalid, not_found, already_exists, other, M,
  ◌>>=◌, ◌>>◌, pure, fail, read, emit, note, unless_exists, unless_missing, with_found,
  found_or_gone, each,
}
use software_distribution_pl.Kube.Counts.{Returns}

abbrev pub AllCalls : (Call → Type 0) → List Call → Type 0
AllCalls Q [] = Unit
AllCalls Q (c ∷ cs) = Q c × AllCalls Q cs

AllCalls-append :
    (Q : Call → Type 0) (xs ys : List Call) → AllCalls Q xs → AllCalls Q ys → AllCalls Q (xs ++ ys)
AllCalls-append Q [] ys hx hy = hy
AllCalls-append Q (x ∷ xs) ys hx hy = (hx.0, AllCalls-append Q xs ys hx.1 hy)

-- The calls that were made since a trace satisfy Q.
pub record Adds (Q : Call → Type 0) (tr tr' : Trace) : Type 0 where
  pub added : List Call
  pub trace : tr' ≡ added ++ tr
  pub all : AllCalls Q added

-- Every call of the operation satisfies Q, on every path.
pub record Only {A : Type 0} (Q : Call → Type 0) (m : M A) : Type 0 where
  pub adds : (tr : Trace) → Adds Q tr (m tr).0

module _ {Q : Call → Type 0} where
  pub none-Adds : (tr : Trace) → Adds Q tr tr
  none-Adds tr = record { added = []; trace = refl; all = tt }

  one-Adds : (c : Call) (tr : Trace) → Q c → Adds Q tr (c ∷ tr)
  one-Adds c tr h = record { added = c ∷ []; trace = refl; all = (h, tt) }

  both-Adds : {s t u : Trace} → Adds Q s t → Adds Q t u → Adds Q s u
  both-Adds {s = s} a b = record {
    added = b.added ++ a.added;
    trace = b.trace ∙ ap (λ x. b.added ++ x) a.trace ∙ sym (append_assoc b.added a.added s);
    all = AllCalls-append Q b.added a.added b.all a.all;
  }

  pub pure-Only : {A : Type 0} (a : A) → Only Q (pure a)
  pure-Only a = record { adds = none-Adds }

  pub fail-Only : {A : Type 0} (e : Error) → Only Q (fail {A = A} e)
  fail-Only e = record { adds = none-Adds }

  pub read-Only : {A : Type 0} (q : Trace → Result A) → Only Q (read q)
  read-Only q = record { adds = none-Adds }

  pub emit-Only : (k : Cluster) (c : Call) → Q c → Only Q (emit k c)
  emit-Only k c h = record { adds = λ tr. one-Adds c tr h }

  pub note-Only : (c : Call) → Q c → Only Q (note c)
  note-Only c h = record { adds = λ tr. one-Adds c tr h }

  pub bind-Adds :
      {A B : Type 0} (r : Result A) (f : A → M B) (tr tr' : Trace)
      → Adds Q tr tr'
      → ((a : A) → Only Q (f a))
      → (let x : Trace × Result B = elim r [ ok a ↦ f a tr' | err e ↦ (tr', err e) ] in
          Adds Q tr x.0)
  bind-Adds (ok a) f tr tr' h k = both-Adds h ((k a).adds tr')
  bind-Adds (err e) f tr tr' h k = h

  pub >>=-Only :
      {A B : Type 0} {m : M A} {f : A → M B}
      → Only Q m
      → ((a : A) → Only Q (f a))
      → Only Q (m >>= f)
  >>=-Only {m = m} {f = f} hm hf = record {
    adds = λ tr. bind-Adds (m tr).1 f tr (m tr).0 (hm.adds tr) hf;
  }

  pub >>-Only : {B : Type 0} {m : M (Unit {0})} {n : M B} → Only Q m → Only Q n → Only Q (m >> n)
  >>-Only {n = n} hm hn = >>=-Only {f = λ _. n} hm (λ _. hn)

  -- What follows the reading of a value has only to keep to the calls at what can be read.
  pub read_then-Only :
      {A B : Type 0} (q : Trace → A) (f : A → M B)
      → ((tr : Trace) → Only Q (f (q tr)))
      → Only Q (read (λ tr. ok (q tr)) >>= f)
  read_then-Only q f h = record { adds = λ tr. (h tr).adds tr }

  pub unless_exists-Only : {m : M (Unit {0})} → Only Q m → Only Q (unless_exists m)
  unless_exists-Only h = record { adds = h.adds }

  pub unless_missing-Only : {m : M (Unit {0})} → Only Q m → Only Q (unless_missing m)
  unless_missing-Only h = record { adds = h.adds }

  found_or_gone-Only :
      {A B : Type 0} (r : Result A) (gone : B) {f : A → M B}
      → ((a : A) → Only Q (f a))
      → Only Q (found_or_gone r gone f)
  found_or_gone-Only (ok a) gone h = h a
  found_or_gone-Only (err (api not_found)) gone h = pure-Only _
  found_or_gone-Only (err (api already_exists)) gone h = fail-Only _
  found_or_gone-Only (err (api other)) gone h = fail-Only _
  found_or_gone-Only (err (invalid s)) gone h = fail-Only _

  pub with_found-Only :
      {A B : Type 0} (q : Trace → Result A) (gone : B) {f : A → M B}
      → ((a : A) → Only Q (f a))
      → Only Q (with_found q gone f)
  with_found-Only q gone h = record { adds = λ tr. (found_or_gone-Only (q tr) gone h).adds tr }

  pub each-Only :
      {A : Type 0} {f : A → M (Unit {0})} (xs : List A)
      → ((a : A) → Only Q (f a))
      → Only Q (each f xs)
  unfolding each
  each-Only [] h = pure-Only tt
  each-Only (x ∷ xs) h = >>-Only (h x) (each-Only xs h)

  pub if-Only :
      {A : Type 0} (b : Bool) {m n : M A}
      → (b ≡ true → Only Q m)
      → (b ≡ false → Only Q n)
      → Only Q (if b then m else n)
  if-Only true hm hn = hm refl
  if-Only false hm hn = hn refl

module _ {Q : Call → Type 0} {A B : Type 0} (R : A → Type 0) where
  after_return :
      (r : Result A) (f : A → M B) (tr tr' : Trace)
      → Adds Q tr tr'
      → ((a : A) → r ≡ ok a → Only Q (f a))
      → (let x : Trace × Result B = elim r [ ok a ↦ f a tr' | err e ↦ (tr', err e) ] in
          Adds Q tr x.0)
  after_return (ok a) f tr tr' h k = both-Adds h ((k a refl).adds tr')
  after_return (err e) f tr tr' h k = h

  -- What follows a step has only to keep to the calls at the values that the step returns.
  pub >>=-Only_returned :
      {m : M A} {f : A → M B}
      → Only Q m
      → Returns R m
      → ((a : A) → R a → Only Q (f a))
      → Only Q (m >>= f)
  >>=-Only_returned {m = m} {f = f} hm q hf = record {
    adds = λ tr. after_return (m tr).1 f tr (m tr).0 (hm.adds tr) (λ a e. hf a (q.holds tr a e));
  }

pub ruleset only = (
  pure-Only, fail-Only, read-Only, emit-Only, note-Only, >>=-Only, >>-Only, unless_exists-Only,
  unless_missing-Only, with_found-Only, each-Only, if-Only,
)
