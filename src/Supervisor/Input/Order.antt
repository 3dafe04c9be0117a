-- ===== src/Supervisor/Input/Order.antt =====
-- The input that a child gets, against the input that was accepted for it.
use mathlib.Core.Path.{subst}
use mathlib.Core.List.{append_assoc, append-nil}
use forcola.Prelude.{
  ℕ, zero, suc, ◌≡◌, refl, ap, sym, ◌∙◌, List, [], ◌∷◌, ◌++◌, Bool, true, false, take,
  if◌then◌else◌,
}
use forcola.Supervisor.Input.{
  Writer, waiting, writing, flushed, gone, Input, new, is_alive, close, finish, enqueue, send,
  receive, wrote, broke, Step, closes, finishes, sends, receives, writes, breaks, ends, Reach,
  begins, steps,
}

abbrev pub concat : List (List ℕ) → List ℕ
concat [] = []
concat (x ∷ xs) = x ++ concat xs

concat-append : (xs : List (List ℕ)) (x : List ℕ) → concat (xs ++ (x ∷ [])) ≡ concat xs ++ x
concat-append [] x = append-nil x
concat-append (y ∷ ys) x =
    ap (λ l. y ++ l) (concat-append ys x) ∙ sym (append_assoc y (concat ys) x)

-- What the writer still owes for a state of it.
abbrev Owes : Writer → Input → Type 0
Owes waiting i = concat i.accepted ≡ i.written ++ concat i.queue
Owes (writing b) i = concat i.accepted ≡ i.written ++ (b ++ concat i.queue)
Owes flushed i = (concat i.accepted ≡ i.written) × (i.open_sender ≡ false)
Owes gone i = (rest : List ℕ) × (concat i.accepted ≡ i.written ++ rest)

abbrev Inv : Input → Type 0
Inv i = Owes i.writer i

drop : ℕ → List ℕ → List ℕ
drop zero bs = bs
drop (suc n) [] = []
drop (suc n) (b ∷ bs) = drop n bs

take-drop : (n : ℕ) (bs : List ℕ) → take n bs ++ drop n bs ≡ bs
unfolding drop
take-drop zero bs = refl
take-drop (suc n) [] = refl
take-drop (suc n) (b ∷ bs) = ap (λ l. b ∷ l) (take-drop n bs)

close-Owes : (w : Writer) (i : Input) → Owes w i → Owes w (close i)
unfolding close
close-Owes waiting i p = p
close-Owes (writing b) i p = p
close-Owes flushed i p = p
close-Owes gone i p = p

finish-Owes : (w : Writer) (i : Input) → Owes w i → Owes w (finish i)
unfolding finish
finish-Owes waiting i p = p
finish-Owes (writing b) i p = p
finish-Owes flushed i (p, q) = (p, refl)
finish-Owes gone i p = p

-- One more piece at the end of both.
more :
    (x : List ℕ) (acc queue : List (List ℕ)) (out : List ℕ)
    → concat acc ≡ out ++ concat queue
    → concat (acc ++ (x ∷ [])) ≡ out ++ concat (queue ++ (x ∷ []))
more x acc queue out e =
    concat-append acc x
    ∙ ap (λ l. l ++ x) e
    ∙ append_assoc out (concat queue) x
    ∙ ap (λ l. out ++ l) (sym (concat-append queue x))

enqueue-Owes :
    (bytes : List ℕ) (w : Writer) (i : Input)
    → i.open_sender ≡ true
    → Owes w i
    → Inv (
        if is_alive w
        then record i {
          writer = w;
          queue = i.queue ++ (bytes ∷ []);
          accepted = i.accepted ++ (bytes ∷ []);
        }
        else record i { writer = w; open_sender = false })
enqueue-Owes bytes waiting i o p = more bytes i.accepted i.queue i.written p
enqueue-Owes bytes (writing b) i o p =
    more bytes i.accepted i.queue (i.written ++ b)
      (p ∙ sym (append_assoc i.written b (concat i.queue)))
    ∙ append_assoc i.written b (concat (i.queue ++ (bytes ∷ [])))
enqueue-Owes bytes flushed i o (p, q) = cc
enqueue-Owes bytes gone i o p = p

send-Inv : (bytes : List ℕ) (i : Input) → Inv i → Inv (send bytes i)
unfolding send enqueue finish
send-Inv bytes i p = at_closed i.closed
  where
    at_open : (b : Bool) → i.open_sender ≡ b → Inv (if b then enqueue bytes i else i)
    at_open true e = enqueue-Owes bytes i.writer i e p
    at_open false e = p

    at_closed :
        (b : Bool) → Inv (if b then finish i else if i.open_sender then enqueue bytes i else i)
    at_closed true = finish-Owes i.writer i p
    at_closed false = at_open i.open_sender refl

-- The state of the writer is known.
known : (w : Writer) (i : Input) → i.writer ≡ w → Inv i → Owes w i
known w i e p = subst (λ v. Owes v i) e p

receive-Inv :
    (bytes : List ℕ) (queue : List (List ℕ)) (i : Input)
    → i.queue ≡ bytes ∷ queue
    → Owes waiting i
    → Inv (receive bytes queue i)
unfolding receive
receive-Inv bytes queue i q p = at_closed i.closed
  where
    at_closed :
        (b : Bool) → Inv (record i { queue = queue; writer = if b then gone else writing bytes })
    at_closed true = (concat i.queue, p)
    at_closed false = p ∙ ap (λ l. i.written ++ concat l) q

step-Inv : {i j : Input} → Step i j → Inv i → Inv j
unfolding wrote broke close finish
step-Inv {i} closes p = close-Owes i.writer i p
step-Inv {i} finishes p = finish-Owes i.writer i p
step-Inv {i} (sends bytes s) p = send-Inv bytes i p
step-Inv {i} (receives bytes queue w q) p = receive-Inv bytes queue i q (known waiting i w p)
step-Inv {i} (writes bytes w) p =
    known (writing bytes) i w p ∙ sym (append_assoc i.written bytes (concat i.queue))
step-Inv {i} (breaks n bytes w) p = (
  drop n bytes ++ concat i.queue,
  known (writing bytes) i w p
      ∙ ap (λ l. i.written ++ (l ++ concat i.queue)) (sym (take-drop n bytes))
      ∙ ap (λ l. i.written ++ l) (append_assoc (take n bytes) (drop n bytes) (concat i.queue))
      ∙ sym (append_assoc i.written (take n bytes) (drop n bytes ++ concat i.queue)),
)
step-Inv {i} (ends w q o) p =
    (known waiting i w p ∙ ap (λ l. i.written ++ concat l) q ∙ append-nil i.written, o)

Reach-Inv : {i : Input} → Reach i → Inv i
unfolding new
Reach-Inv (begins bounded) = refl
Reach-Inv (steps r s) = step-Inv s (Reach-Inv r)

prefix :
    (w : Writer) (i : Input) → Owes w i → (rest : List ℕ) × (concat i.accepted ≡ i.written ++ rest)
prefix waiting i p = (concat i.queue, p)
prefix (writing b) i p = (b ++ concat i.queue, p)
prefix flushed i (p, o) = ([], p ∙ sym (append-nil i.written))
prefix gone i p = p

-- However the reader, the supervisor and the writer are interleaved, the child has been written a prefix of the
-- input that was accepted, in its order and without a gap; and if the writer ended with an empty queue behind the
-- end of the input, all of it.
pub written-accepted :
    (i : Input)
    → Reach i
    → ((rest : List ℕ) × (concat i.accepted ≡ i.written ++ rest))
      × (i.writer ≡ flushed → concat i.accepted ≡ i.written)
written-accepted i r = (prefix i.writer i (Reach-Inv r), λ e. (known flushed i e (Reach-Inv r)).0)
