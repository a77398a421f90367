-- ===== src/Quic/Segment/Lockstep.antt =====
-- An encoder and a decoder in lockstep: the bits that a call of the encoder writes are the bits that
-- the matching call of the decoder reads.
use capsaicin.Base.{
  ℕ, ◌≡◌, refl, Bool, true, false, if◌then◌else◌, ◌∙◌, ap, sym, subst, List, [], ◌++◌, append_assoc,
  append-nil,
}
use capsaicin.Base.Outcome.{Outcome, ok, and_then}
use capsaicin.Quic.{QuicError}

-- The encoder's state with the bits written so far, and the decoder's beside it with the bits taken
-- so far and the bits ahead; both at a pixel.
pub record Pair (S D : Type 0) : Type 1 where
  pub Writes : ℕ → List ℕ → S → Type 0
  pub Reads : ℕ → List ℕ → List ℕ → S → D → Type 0

-- Results of the two calls: a state under a common shape.
pub record Shaped (S D A B T : Type 0) : Type 1 where
  pub enc_result : T → S → A
  pub dec_result : T → D → B
  pub Good : T → Type 0
  pub at_pixel : T → ℕ

pub record Lockstep {S D A B T : Type 0} (p : Pair S D) (sh : Shaped S D A B T) (i : ℕ)
    (bs : List ℕ) (s : S) (enc : Outcome QuicError A) (dec : D → Outcome QuicError B) : Type 0 where
  pub shape : T
  pub good : sh.Good shape
  pub next : S
  pub code : List ℕ
  pub encoded : enc ≡ ok (sh.enc_result shape next)
  pub kept : p.Writes (sh.at_pixel shape) (bs ++ code) next
  pub decoded :
      (more : List ℕ) (d : D)
      → p.Reads i bs (code ++ more) s d
      → (d' : D) × (dec d ≡ ok (sh.dec_result shape d'))
        × p.Reads (sh.at_pixel shape) (bs ++ code) more next d'

module _ {S D : Type 0} (p : Pair S D) where
  -- Nothing is written.
  pub Lockstep-ok :
      {A B T : Type 0} (sh : Shaped S D A B T) (t : T) (i : ℕ) (bs : List ℕ) (s : S)
      → sh.Good t
      → sh.at_pixel t ≡ i
      → p.Writes i bs s
      → Lockstep p sh i bs s (ok (sh.enc_result t s)) (λ d. ok (sh.dec_result t d))
  Lockstep-ok sh t i bs s g e h = record {
    shape = t;
    good = g;
    next = s;
    code = [];
    encoded = refl;
    kept = rw (append-nil bs, e) h;
    decoded = λ more d r. (d, refl, rw (append-nil bs, e) r);
  }

  -- One call after the other.
  pub Lockstep-bind :
      {A B T A' B' T' : Type 0} (sh : Shaped S D A B T) (sh' : Shaped S D A' B' T') (i : ℕ)
      (bs : List ℕ) (s : S) (enc : Outcome QuicError A) (dec : D → Outcome QuicError B)
      (k : A → Outcome QuicError A') (l : B → Outcome QuicError B')
      → Lockstep p sh i bs s enc dec
      → ((t : T) (bs' : List ℕ) (s' : S)
          → sh.Good t
          → p.Writes (sh.at_pixel t) bs' s'
          → Lockstep p sh'
              (sh.at_pixel t)
              bs'
              s'
              (k (sh.enc_result t s'))
              (λ d. l (sh.dec_result t d)))
      → Lockstep p sh' i bs s (and_then enc k) (λ d. and_then (dec d) l)
  Lockstep-bind sh sh' i bs s enc dec k l a f =
      let b = f a.shape (bs ++ a.code) a.next a.good a.kept in
      let e = append_assoc bs a.code b.code in
      record {
        shape = b.shape;
        good = b.good;
        next = b.next;
        code = a.code ++ b.code;
        encoded = rw (a.encoded, b.encoded);
        kept = subst (λ x. p.Writes (sh'.at_pixel b.shape) x b.next) e b.kept;
        decoded = λ more d r.
            let r1 = subst (λ x. p.Reads i bs x s d) (append_assoc a.code b.code more) r in
            let (d1, e1, r2) = a.decoded (b.code ++ more) d r1 in
            let (d2, e2, r3) = b.decoded more d1 r2 in
            (d2, rw (e1, e2), subst (λ x. p.Reads (sh'.at_pixel b.shape) x more b.next d2) e r3);
      }

  -- Calls that are equal to calls in lockstep.
  pub Lockstep-eq :
      {A B T : Type 0} (sh : Shaped S D A B T) (i : ℕ) (bs : List ℕ) (s : S)
      {enc enc' : Outcome QuicError A} {dec dec' : D → Outcome QuicError B}
      → enc' ≡ enc
      → ((more : List ℕ) (d : D) → p.Reads i bs more s d → dec' d ≡ dec d)
      → Lockstep p sh i bs s enc dec
      → Lockstep p sh i bs s enc' dec'
  Lockstep-eq sh i bs s e h a = record {
    shape = a.shape;
    good = a.good;
    next = a.next;
    code = a.code;
    encoded = e ∙ a.encoded;
    kept = a.kept;
    decoded =
        λ more d r. let (d', e', r') = a.decoded more d r in (d', h (a.code ++ more) d r ∙ e', r');
  }

  -- A result at another shape's condition.
  pub Lockstep-weaken :
      {A B T : Type 0} (sh sh' : Shaped S D A B T) (i : ℕ) (bs : List ℕ) (s : S)
      {enc : Outcome QuicError A} {dec : D → Outcome QuicError B}
      → (f : T → T) → ((t : T) (s' : S) → sh'.enc_result (f t) s' ≡ sh.enc_result t s')
      → ((t : T) (d' : D) → sh'.dec_result (f t) d' ≡ sh.dec_result t d')
      → ((t : T) → sh'.at_pixel (f t) ≡ sh.at_pixel t)
      → ((t : T) → sh.Good t → sh'.Good (f t))
      → Lockstep p sh i bs s enc dec
      → Lockstep p sh' i bs s enc dec
  Lockstep-weaken sh sh' i bs s f he hd hp hg a = record {
    shape = f a.shape;
    good = hg a.shape a.good;
    next = a.next;
    code = a.code;
    encoded = a.encoded ∙ ap ok (sym (he a.shape a.next));
    kept = subst (λ n. p.Writes n (bs ++ a.code) a.next) (sym (hp a.shape)) a.kept;
    decoded = λ more d r.
        let (d', e', r') = a.decoded more d r in
        (
          d',
          e' ∙ ap ok (sym (hd a.shape d')),
          subst (λ n. p.Reads n (bs ++ a.code) more a.next d') (sym (hp a.shape)) r',
        );
  }

  -- Both sides branch on the same test.
  pub Lockstep-if :
      {A B T : Type 0} (sh : Shaped S D A B T) (i : ℕ) (bs : List ℕ) (s : S) (b : Bool)
      (enc enc' : Outcome QuicError A) (dec dec' : D → Outcome QuicError B)
      → (b ≡ true → Lockstep p sh i bs s enc dec)
      → (b ≡ false → Lockstep p sh i bs s enc' dec')
      → Lockstep p sh i bs s (if b then enc else enc') (λ d. if b then dec d else dec' d)
  Lockstep-if sh i bs s true enc enc' dec dec' f g = f refl
  Lockstep-if sh i bs s false enc enc' dec dec' f g = g refl
