-- ===== src/Gate/Keeping.antt =====
-- How what a gate sends is judged by the chain that each call met, through the actions that the
-- gate is composed of (services/live-room/src/gate/authority.mjs).
use tradermarket.Base.{
  Bool, true, false, Option, none, some, ◌∷◌, ◌≡◌, refl, ◌∙◌, subst, ap, sym, if◌then◌else◌,
}
use tradermarket.Gate.{Call, Entry, Chain, Durable, Memory, World}
use tradermarket.Gate.Loading.{ensure_loaded-Loads}
use tradermarket.Gate.Action.{
  M, pure, and_then, ◌>>=◌, need, ask, get_memory, write, send, sent_to, log, ensure_loaded,
}

abbrev pub Holds : {A : Type 0} → (A → Type 0) → Option A → Type 0
Holds Q none = Unit
Holds Q (some a) = Q a

-- A change of memory, and of what is stored, that leaves the nonces alone
abbrev pub IsQuiet : (Memory → Memory) → Type 0
IsQuiet f = (m : Memory) → ((f m).loaded ≡ m.loaded) × ((f m).next_nonce ≡ m.next_nonce)

abbrev pub IsQuietStore : (Durable → Durable) → Type 0
IsQuietStore g = (d : Durable) → (g d).saved_nonce ≡ d.saved_nonce

-- An invariant of all that a gate does, where it sends what is justified alone
pub record Watch {S : Type 0} (Justifies : S → Call → Type 0) : Type 1 where
  pub I : World S → Type 0
  pub written :
      (w : World S) (f : Memory → Memory) (g : Durable → Durable)
      → IsQuiet f
      → IsQuietStore g
      → I w
      → I (write f g w).1
  pub called :
      (w : World S) (c : Call) (t : S)
      → Justifies w.chain c
      → I w
      → I (record w { chain = t; sent = (w.chain, c) ∷ w.sent })

wrote :
    {S : Type 0} {s : S} (w : World S) (f : Memory → Memory) (g : Durable → Durable)
    → w.chain ≡ s
    → (write f g w).1.chain ≡ s
unfolding write
wrote w f g on = on

Holds-wrote :
    {S : Type 0} (w : World S) (f : Memory → Memory) (g : Durable → Durable)
    → Holds (λ u. Unit) (write f g w).0
unfolding write
Holds-wrote w f g = tt

pub Holds-unit : (o : Option (Unit {0})) → Holds (λ u. Unit) o
Holds-unit none = tt
Holds-unit (some u) = tt

module _ {S : Type 0} {J : S → Call → Type 0} (K : Watch J) where
  abbrev pub ReadTo : {A : Type 0} → S → (A → Type 0) → Option A × World S → Type 0
  ReadTo s Q r = (r.1.chain ≡ s) × (K.I r.1 × Holds Q r.0)

  -- On the chain `s`, `m` sends nothing, and what it returns satisfies `Q`.
  pub record Reads {A : Type 0} (s : S) (Q : A → Type 0) (m : M S A) : Type 0 where
    pub run : (w : World S) → w.chain ≡ s → K.I w → ReadTo s Q (m w)

  -- On the chain `s`, all that `m` sends is justified.
  pub record Acts {A : Type 0} (s : S) (m : M S A) : Type 0 where
    pub run : (w : World S) → w.chain ≡ s → K.I w → K.I (m w).1

  Holds-ask :
      {A : Type 0} (Q : A → Type 0) (o : Option A) → ((a : A) → o ≡ some a → Q a) → Holds Q o
  Holds-ask Q none q = tt
  Holds-ask Q (some a) q = q a refl

  Holds-map :
      {A : Type 0} (Q R : A → Type 0) (o : Option A) → ((a : A) → Q a → R a) → Holds Q o → Holds R o
  Holds-map Q R none f q = tt
  Holds-map Q R (some a) f q = f a q

  pub Reads-map :
      {A : Type 0} (Q R : A → Type 0) (m : M S A) (s : S)
      → ((a : A) → Q a → R a)
      → Reads s Q m
      → Reads s R m
  Reads-map Q R m s f read = record {
    run = λ w on safe. let to = read.run w on safe in (to.0, (to.1.0, Holds-map Q R _ f to.1.1));
  }

  pub Reads-pure : {A : Type 0} {Q : A → Type 0} (s : S) (a : A) → Q a → Reads s Q (pure a)
  Reads-pure s a q = record { run = λ w on safe. (on, (safe, q)) }

  pub Reads-need :
      {A : Type 0} {Q : A → Type 0} (s : S) (o : Option A)
      → ((a : A) → o ≡ some a → Q a)
      → Reads s Q (need o)
  unfolding need
  Reads-need s none q = record { run = λ w on safe. (on, (safe, tt)) }
  Reads-need s (some a) q = record { run = λ w on safe. (on, (safe, q a refl)) }

  pub Reads-ask :
      {A : Type 0} {Q : A → Type 0} (s : S) (f : S → Option A)
      → ((a : A) → f s ≡ some a → Q a)
      → Reads s Q (ask f)
  unfolding ask
  Reads-ask {A = A} {Q = Q} s f q = record {
    run = λ w on safe. (on, (safe, Holds-ask Q (f w.chain) (λ a e. q a (ap f (sym on) ∙ e))));
  }

  pub Reads-memory : {Q : Memory → Type 0} (s : S) → ((m : Memory) → Q m) → Reads s Q get_memory
  unfolding get_memory
  Reads-memory s q = record { run = λ w on safe. (on, (safe, q w.memory)) }

  pub Reads-write :
      (s : S) (f : Memory → Memory) (g : Durable → Durable)
      → IsQuiet f
      → IsQuietStore g
      → Reads s (λ u. Unit) (write f g)
  Reads-write s f g p q = record {
    run = λ w on safe. (wrote w f g on, (K.written w f g p q safe, Holds-wrote w f g));
  }

  pub Reads-log : (s : S) (e : Entry) → Reads s (λ u. Unit) (log e)
  Reads-log s e = record {
    run = λ w on safe.
        (wrote w _ _ on, (K.written w _ _ (λ m. (refl, refl)) (λ d. refl) safe, Holds-wrote w _ _));
  }

  pub Reads-loaded :
      (chain : Chain S) (s : S)
      → ((w : World S) → K.I w → K.I (ensure_loaded chain w).1)
      → Reads s (λ u. Unit) (ensure_loaded chain)
  Reads-loaded chain s kept = record {
    run = λ w on safe. (
      (ensure_loaded-Loads chain w).same_chain ∙ on,
      (kept w safe, Holds-unit (ensure_loaded chain w).0),
    );
  }

  ReadTo-then :
      {A B : Type 0} {Q : A → Type 0} {R : B → Type 0} (s : S) (f : A → M S B)
      (r : Option A × World S)
      → ReadTo s Q r
      → ((a : A) → Q a → Reads s R (f a))
      → ReadTo s R (and_then r f)
  ReadTo-then s f (none, w) read rest = (read.0, (read.1.0, tt))
  ReadTo-then s f (some a, w) read rest = (rest a read.1.1).run w read.0 read.1.0

  pub Reads-then :
      {A B : Type 0} {Q : A → Type 0} {R : B → Type 0} {m : M S A} {f : A → M S B} (s : S)
      → Reads s Q m
      → ((a : A) → Q a → Reads s R (f a))
      → Reads s R (m >>= f)
  unfolding ◌>>=◌
  Reads-then {m = m} {f = f} s read rest = record {
    run = λ w on safe. ReadTo-then s f (m w) (read.run w on safe) rest;
  }

  Acts-after :
      {A B : Type 0} {Q : A → Type 0} (s : S) (f : A → M S B) (r : Option A × World S)
      → ReadTo s Q r
      → ((a : A) → Q a → Acts s (f a))
      → K.I (and_then r f).1
  Acts-after s f (none, w) read rest = read.1.0
  Acts-after s f (some a, w) read rest = (rest a read.1.1).run w read.0 read.1.0

  -- What is read decides what is sent.
  pub Acts-then :
      {A B : Type 0} {Q : A → Type 0} {m : M S A} {f : A → M S B} (s : S)
      → Reads s Q m
      → ((a : A) → Q a → Acts s (f a))
      → Acts s (m >>= f)
  unfolding ◌>>=◌
  Acts-then {m = m} {f = f} s read rest = record {
    run = λ w on safe. Acts-after s f (m w) (read.run w on safe) rest;
  }

  Acts-next_after :
      {A B : Type 0} (f : A → M S B) (r : Option A × World S)
      → K.I r.1
      → ((s : S) (a : A) → Acts s (f a))
      → K.I (and_then r f).1
  Acts-next_after f (none, w) safe rest = safe
  Acts-next_after f (some a, w) safe rest = (rest w.chain a).run w refl safe

  -- After a call, the chain is another.
  pub Acts-next :
      {A B : Type 0} {m : M S A} {f : A → M S B} (s : S)
      → Acts s m
      → ((t : S) (a : A) → Acts t (f a))
      → Acts s (m >>= f)
  unfolding ◌>>=◌
  Acts-next {m = m} {f = f} s act rest = record {
    run = λ w on safe. Acts-next_after f (m w) (act.run w on safe) rest;
  }

  pub Acts-read : {A : Type 0} {Q : A → Type 0} {m : M S A} (s : S) → Reads s Q m → Acts s m
  Acts-read s read = record { run = λ w on safe. (read.run w on safe).1.0 }

  sent_to-kept :
      (w : World S) (c : Call) (o : Option S) → K.I w → J w.chain c → K.I (sent_to w c o).1
  sent_to-kept w c none safe j = safe
  sent_to-kept w c (some t) safe j = K.called w c t j safe

  pub Acts-send : (chain : Chain S) (s : S) (c : Call) → J s c → Acts s (send chain c)
  unfolding send
  Acts-send chain s c j = record {
    run = λ w on safe.
        sent_to-kept w c (chain.send w.chain c) safe (subst (λ (t : S). J t c) (sym on) j);
  }

  pub Reads-if :
      {A : Type 0} {Q : A → Type 0} {m k : M S A} (s : S) (b : Bool)
      → (b ≡ true → Reads s Q m)
      → (b ≡ false → Reads s Q k)
      → Reads s Q (if b then m else k)
  Reads-if s true p q = p refl
  Reads-if s false p q = q refl

  pub Acts-if :
      {A : Type 0} {m k : M S A} (s : S) (b : Bool)
      → (b ≡ true → Acts s m)
      → (b ≡ false → Acts s k)
      → Acts s (if b then m else k)
  Acts-if s true p q = p refl
  Acts-if s false p q = q refl

  pub Acts-pure : {A : Type 0} (s : S) (a : A) → Acts s (pure a)
  Acts-pure s a = record { run = λ w on safe. safe }
