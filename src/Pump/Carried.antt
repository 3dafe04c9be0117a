-- ===== src/Pump/Carried.antt =====
-- What the writer of a pump of native/forcola_shim/src/supervisor.rs holds, in frames of the pump and of the other threads.
use forcola.Prelude.{
  ℕ, ◌≡◌, refl, sym, ap, ◌∙◌, List, [], ◌∷◌, ◌++◌, true, false, take, Option, none, some, ◌⊎◌, inl,
  inr, Bool-cases, arith,
}
use mathlib.Core.Path.{subst}
use forcola.Frame.{
  Source, Writer, ReadResult, read, read_ok, read_interrupted, read_failed, write_all, write_frame,
}
use forcola.Credit.{Permit, try_permit}
use forcola.Frame.RoundTrip.{encode, write_frame-encode, write_frame_sent}
use forcola.Pump.{
  buf_len, Pc, awaiting, reading, took, draining, forwarding, at_eof, read_error, cancelled,
  write_failed, System, on_permit, on_read, on_write, run_pc, pump_step, start, pump, grants,
  uncorks, cancels, others, Reach, begin, later,
}
use forcola.Pump.Eager.{length-encode}
use mathlib.Core.List.{append_assoc, append-nil}

-- A frame that was written whole: of the pump, with its tag, or of another thread.
pub data Sent : Type 0 where
  mine : (payload : List ℕ) → Sent
  theirs : (t : ℕ) (payload : List ℕ) → Sent

abbrev frame : ℕ → Sent → List ℕ
frame tag (mine payload) = encode tag payload
frame tag (theirs t payload) = encode t payload

abbrev own : Sent → List ℕ
own (mine payload) = payload
own (theirs t payload) = []

abbrev pub frames : ℕ → List Sent → List ℕ
frames tag [] = []
frames tag (f ∷ fs) = frame tag f ++ frames tag fs

abbrev pub payloads : List Sent → List ℕ
payloads [] = []
payloads (f ∷ fs) = own f ++ payloads fs

-- Behind what stood there before, whole frames, of which the pump's carry `text`, and then further bytes only if
-- the writer takes no more.
pub record Carried (tag : ℕ) (before : List ℕ) (w : Writer) (text : List ℕ) : Type 0 where
  pub sent : List Sent
  pub part : List ℕ
  pub written : w.written ≡ before ++ (frames tag sent ++ part)
  pub carries : payloads sent ≡ text
  pub partial : (part ≡ []) ⊎ (w.room ≡ 0)

frames-snoc :
    (tag : ℕ) (fs : List Sent) (f : Sent)
    → frames tag (fs ++ (f ∷ [])) ≡ frames tag fs ++ frame tag f
frames-snoc tag [] f = append-nil (frame tag f)
frames-snoc tag (g ∷ fs) f =
    ap (λ t. frame tag g ++ t) (frames-snoc tag fs f)
    ∙ sym (append_assoc (frame tag g) (frames tag fs) (frame tag f))

payloads-snoc : (fs : List Sent) (f : Sent) → payloads (fs ++ (f ∷ [])) ≡ payloads fs ++ own f
payloads-snoc [] f = append-nil (own f)
payloads-snoc (g ∷ fs) f =
    ap (λ t. own g ++ t) (payloads-snoc fs f) ∙ sym (append_assoc (own g) (payloads fs) (own f))

write_full :
    (w : Writer) (t : ℕ) (payload : List ℕ) → w.room ≡ 0 → (write_frame w t payload).0 ≡ false
unfolding write_all
write_full w t payload e =
    rw (write_frame-encode w t payload) (ground (arith, length-encode t payload))

module _ (tag : ℕ) (before : List ℕ) where
  sent-Carried :
      (f : Sent) (t : ℕ) (payload : List ℕ) (w : Writer) (text : List ℕ)
      → frame tag f ≡ encode t payload
      → (write_frame w t payload).0 ≡ true
      → Carried tag before w text
      → Carried tag before (write_frame w t payload).1 (text ++ own f)
  sent-Carried f t payload w text q e c = at_part c.partial
    where
      at_part :
          (c.part ≡ []) ⊎ (w.room ≡ 0)
          → Carried tag before (write_frame w t payload).1 (text ++ own f)
      at_part (inr full) = absurd (let lost = write_full w t payload full in cc)
      at_part (inl whole) = record {
        sent = c.sent ++ (f ∷ []);
        part = [];
        written =
            write_frame_sent w t payload e
            ∙ ap (λ x. x ++ encode t payload)
                (c.written
                  ∙ ap (λ x. before ++ (frames tag c.sent ++ x)) whole
                  ∙ ap (λ x. before ++ x) (append-nil (frames tag c.sent)))
            ∙ append_assoc before (frames tag c.sent) (encode t payload)
            ∙ ap (λ x. before ++ x)
                (ap (λ x. frames tag c.sent ++ x) (sym q)
                  ∙ sym (frames-snoc tag c.sent f)
                  ∙ sym (append-nil (frames tag (c.sent ++ (f ∷ [])))));
        carries = payloads-snoc c.sent f ∙ ap (λ x. x ++ own f) c.carries;
        partial = inl refl;
      }

  write_lost :
      (w : Writer) (t : ℕ) (payload : List ℕ)
      → (write_frame w t payload).0 ≡ false
      → write_frame w t payload
        ≡ (false, record { written = w.written ++ take w.room (encode t payload); room = 0 })
  unfolding write_all
  write_lost w t payload e =
      let lost : (write_all w (encode t payload)).0 ≡ false =
        ap (λ x. x.0) (sym (write_frame-encode w t payload)) ∙ e in
      write_frame-encode w t payload ∙ ground arith

  lost-Carried :
      (t : ℕ) (payload : List ℕ) (w : Writer) (text : List ℕ)
      → (write_frame w t payload).0 ≡ false
      → Carried tag before w text
      → Carried tag before (write_frame w t payload).1 text
  lost-Carried t payload w text e c = rw (write_lost w t payload e) (record {
    sent = c.sent;
    part = c.part ++ take w.room (encode t payload);
    written =
        ap (λ x. x ++ take w.room (encode t payload)) c.written
        ∙ append_assoc before (frames tag c.sent ++ c.part) (take w.room (encode t payload))
        ∙ ap (λ x. before ++ x)
            (append_assoc (frames tag c.sent) c.part (take w.room (encode t payload)));
    carries = c.carries;
    partial = inr refl;
  })

  abbrev Holds : System → Type 0
  Holds s = Carried tag before s.out s.forwarded

  on_permit-Holds : (p : Option Permit) (s : System) → Holds s → Holds (on_permit p s)
  unfolding on_permit
  on_permit-Holds none s c = c
  on_permit-Holds (some (Permit.read cap)) s c = c
  on_permit-Holds (some Permit.uncork) s c = c
  on_permit-Holds (some Permit.cancel) s c = c

  on_read-Holds :
      (next : List ℕ → Pc) (answer : ReadResult) (rest : Source) (s : System)
      → Holds s
      → Holds (on_read next answer rest s)
  unfolding on_read
  on_read-Holds next (read_ok []) rest s c = c
  on_read-Holds next (read_ok (b ∷ bs)) rest s c = c
  on_read-Holds next read_interrupted rest s c = c
  on_read-Holds next read_failed rest s c = c

  run_pc-Holds : (pc : Pc) (s : System) → Holds s → Holds (run_pc tag pc s)
  unfolding run_pc on_write
  run_pc-Holds awaiting s c = on_permit-Holds (try_permit buf_len s.credit) s c
  run_pc-Holds (reading cap) s c = on_read-Holds took (read cap s.pipe).0 (read cap s.pipe).1 s c
  run_pc-Holds (took bs) s c = c
  run_pc-Holds draining s c =
      on_read-Holds forwarding (read buf_len s.pipe).0 (read buf_len s.pipe).1 s c
  run_pc-Holds (forwarding bs) s c = elim (Bool-cases (write_frame s.out tag bs).0) [
    | inl sent ↦ rw sent (sent-Carried (mine bs) tag bs s.out s.forwarded refl sent c)
    | inr lost ↦ rw lost (lost-Carried tag bs s.out s.forwarded lost c)
  ]
  run_pc-Holds at_eof s c = c
  run_pc-Holds read_error s c = c
  run_pc-Holds cancelled s c = c
  run_pc-Holds (write_failed bs) s c = c

  others-Holds :
      (t : ℕ) (payload : List ℕ) (s : System)
      → Holds s
      → Holds (record s { out = (write_frame s.out t payload).1 })
  others-Holds t payload s c = elim (Bool-cases (write_frame s.out t payload).0) [
    | inl sent ↦
        subst (λ x. Carried tag before (write_frame s.out t payload).1 x) (append-nil s.forwarded)
          (sent-Carried (theirs t payload) t payload s.out s.forwarded refl sent c)
    | inr lost ↦ lost-Carried t payload s.out s.forwarded lost c
  ]

-- The frames that a pump has written carry what it counts as forwarded.
pub Reach-Carried :
    {tag : ℕ} {pipe : Source} {out : Writer} {s : System}
    → Reach tag pipe out s
    → Carried tag out.written s.out s.forwarded
unfolding pump_step start
Reach-Carried {out} begin = record {
  sent = [];
  part = [];
  written = sym (append-nil out.written);
  carries = refl;
  partial = inl refl;
}
Reach-Carried {tag} {out} (later {s = s} r pump) =
    run_pc-Holds tag out.written s.pc s (Reach-Carried r)
Reach-Carried (later r (grants n)) = Reach-Carried r
Reach-Carried (later r uncorks) = Reach-Carried r
Reach-Carried (later r cancels) = Reach-Carried r
Reach-Carried {tag} {out} (later {s = s} r (others t payload)) =
    others-Holds tag out.written t payload s (Reach-Carried r)
