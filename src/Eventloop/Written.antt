-- ===== src/Eventloop/Written.antt =====
-- What the replies to SUBMIT of src/usbip.rs write.
use f2ido.Prelude.{
  ℕ, ◌^◌, ap, ◌∙◌, ◌⊎◌, inl, inr, Bool, true, false, ltb, List, [], ◌∷◌, ◌++◌, append_assoc, Option,
  none, some, if◌then◌else◌, length,
}
use f2ido.Prelude.Text.{ℤ, pos}
use f2ido.Outcome.{M, Outcome, ok, err, panic, pure, abort, ◌>>=◌, ◌>>◌}
use f2ido.Usbip.Stream.{Header, ret_submit, Chunk, header, bytes, Stream, write_all, write}
use f2ido.Usbip.Stream.Writes.{Oks, Sends, write_all-Sends, write-Sends}
use f2ido.Usbip.Wire.{
  usbip_ret_submit, reply_to, unswapped_one, write_submit_reply, write_submit_reply_error,
}

-- The header of a reply to `h`.
abbrev pub reply_header : Header → (status length : ℤ) → Chunk
reply_header h status l =
    header (reply_to h usbip_ret_submit (ret_submit status l (pos 0) (pos 0) (pos 0)))

-- One reply to `h` was written: a success and one piece of data, or an error and nothing else.
abbrev pub Tells : Header → Stream → Stream → Type 0
Tells h t t' =
    ((l : ℤ) × (ys : List ℕ) × Sends (reply_header h (pos 0) l ∷ bytes ys ∷ []) t t')
    ⊎ Sends (reply_header h unswapped_one (pos 0) ∷ []) t t'

pub write_submit_reply_error-Tells :
    (h : Header) (t : Stream) → Oks (Tells h t) (write_submit_reply_error h t)
unfolding write_submit_reply_error
write_submit_reply_error-Tells h t = sent (write_all _ t) (write_all-Sends _ t)
  where
    sent :
        (o : Outcome Stream (Unit {0}))
        → Oks (Sends (reply_header h unswapped_one (pos 0) ∷ []) t) o
        → Oks (Tells h t) o
    sent (ok a t') x = inr x
    sent (err e t') x = tt
    sent panic x = tt

-- The header of a reply, and then its data.
abbrev header_and_data : Header → List ℕ → ℤ → M Stream (Unit {0})
header_and_data h xs l = write_all (reply_header h (pos 0) l) >> write xs

header_and_data-Tells :
    (h : Header) (xs : List ℕ) (l : ℤ) (t : Stream) → Oks (Tells h t) (header_and_data h xs l t)
header_and_data-Tells h xs l t = then_data (write_all _ t) (write_all-Sends _ t)
  where
    sent :
        (u : Stream) (o : Outcome Stream (Unit {0}))
        → Sends (reply_header h (pos 0) l ∷ []) t u
        → Oks (λ v. (ys : List ℕ) × Sends (bytes ys ∷ []) u v) o
        → Oks (Tells h t) o
    sent u (ok a v) x (ys, y) = inl (
      l,
      ys,
      y
          ∙ ap (λ (cs : List Chunk). cs ++ bytes ys ∷ []) x
          ∙ append_assoc t.output (reply_header h (pos 0) l ∷ []) (bytes ys ∷ []),
    )
    sent u (err e v) x y = tt
    sent u panic x y = tt

    then_data :
        (o : Outcome Stream (Unit {0}))
        → Oks (Sends (reply_header h (pos 0) l ∷ []) t) o
        → Oks (Tells h t) (((λ (_ : Stream). o) >> write xs) t)
    then_data (ok a u) x = sent u (write xs u) x (write-Sends xs u)
    then_data (err e u) x = tt
    then_data panic x = tt

pub write_submit_reply-Tells :
    (h : Header) (xs : List ℕ) (len : Option ℤ) (t : Stream)
    → Oks (Tells h t) (write_submit_reply h xs len t)
unfolding write_submit_reply
write_submit_reply-Tells h xs (some l) t = header_and_data-Tells h xs l t
write_submit_reply-Tells h xs none t = in_range (ltb (length xs) (2 ^ 31))
  where
    in_range :
        (b : Bool)
        → Oks
            (Tells h t)
            (((if b then pure (pos (length xs)) else abort) >>= header_and_data h xs) t)
    in_range true = header_and_data-Tells h xs (pos (length xs)) t
    in_range false = tt
