-- ===== src/Server/Connection/Sends.antt =====
-- What a connection sends of its replies (engine/src/epoll_server.cpp).
use distributed_in_memory_kv.Prelude.{
  ℕ, zero, suc, ◌+◌, ◌≡◌, refl, sym, ap, ◌∙◌, true, false, inl, inr, List, [], ◌∷◌, ◌++◌, Bytes,
  append-nil, append_assoc, Bool-cases, take, drop, arith, if◌then◌else◌,
}
use distributed_in_memory_kv.Resp.Parser.{is_empty}
use distributed_in_memory_kv.Server.Connection.{
  ClientConnection, Failure, would_block, failed, on_failure, disarm, erase, handle_client_write,
}
use distributed_in_memory_kv.Server.Connection.Replies.{IsArmed}

abbrev pub total : List ℕ → ℕ
total [] = 0
total (n ∷ ns) = n + total ns

module _ {ℓ} {A : Type ℓ} where
  take-append-drop : (n : ℕ) (xs : List A) → take n xs ++ drop n xs ≡ xs
  take-append-drop zero xs = refl
  take-append-drop (suc n) [] = refl
  take-append-drop (suc n) (x ∷ xs) = ap (◌∷◌ x) (take-append-drop n xs)

  take_nil : (n : ℕ) → ◌≡◌ {A = List A} (take n []) []
  take_nil zero = refl
  take_nil (suc n) = refl

  drop_nil : (n : ℕ) → ◌≡◌ {A = List A} (drop n []) []
  drop_nil zero = refl
  drop_nil (suc n) = refl

  drop-drop : (m n : ℕ) (xs : List A) → drop n (drop m xs) ≡ drop (m + n) xs
  drop-drop zero n xs = let e : 0 + n ≡ n = omega arith in rw e refl
  drop-drop (suc m) n [] = drop_nil n ∙ sym (drop_nil (suc m + n))
  drop-drop (suc m) n (x ∷ xs) =
      let e : suc m + n ≡ suc (m + n) = omega arith in rw e (drop-drop m n xs)

  take_add : (m n : ℕ) (xs : List A) → take m xs ++ take n (drop m xs) ≡ take (m + n) xs
  take_add zero n xs = let e : 0 + n ≡ n = omega arith in rw e refl
  take_add (suc m) n [] = take_nil n ∙ sym (take_nil (suc m + n))
  take_add (suc m) n (x ∷ xs) =
      let e : suc m + n ≡ suc (m + n) = omega arith in rw e (ap (◌∷◌ x) (take_add m n xs))

erase-erase : (m n : ℕ) (c : ClientConnection) → erase n (erase m c) ≡ erase (m + n) c
unfolding erase
erase-erase m n c =
    rw
      (
        drop-drop m n c.write_buffer,
        append_assoc c.sent (take m c.write_buffer) (take n (drop m c.write_buffer)),
        take_add m n c.write_buffer,
      )
      refl

is_empty-nil : (s : Bytes) → is_empty s ≡ true → s ≡ []
is_empty-nil [] h = refl
is_empty-nil (b ∷ s) h = cc

-- Nothing is left to send.
erase_empty : (n : ℕ) (c : ClientConnection) → is_empty c.write_buffer ≡ true → erase n c ≡ c
unfolding erase
erase_empty n c h = erase_goes c.write_buffer (is_empty-nil c.write_buffer h)
  where
    erase_goes :
        (s : Bytes)
        → s ≡ []
        → record c { write_buffer = drop n s; sent = c.sent ++ take n s }
          ≡ record c { write_buffer = s }
    erase_goes s e = rw (e, drop_nil n, take_nil n, append-nil c.sent) refl

erase_zero : (c : ClientConnection) → erase 0 c ≡ c
unfolding erase
erase_zero c = rw (append-nil c.sent) refl

handle_client_write_empty :
    (taken : List ℕ) (e : Failure) (c : ClientConnection)
    → is_empty c.write_buffer ≡ true
    → handle_client_write taken e c ≡ disarm c
unfolding handle_client_write
handle_client_write_empty [] e c empty = rw empty refl
handle_client_write_empty (n ∷ taken) e c empty = rw empty refl

handle_client_write_next :
    (n : ℕ) (taken : List ℕ) (e : Failure) (c : ClientConnection)
    → is_empty c.write_buffer ≡ false
    → handle_client_write (n ∷ taken) e c ≡ handle_client_write taken e (erase n c)
unfolding handle_client_write
handle_client_write_next n taken e c full = rw full refl

-- The calls of `send` come to one call that takes all that they take.
handle_client_write_loop :
    (taken : List ℕ) (e : Failure) (c : ClientConnection)
    → handle_client_write taken e c ≡ handle_client_write [] e (erase (total taken) c)
handle_client_write_loop [] e c = ap (handle_client_write [] e) (sym (erase_zero c))
handle_client_write_loop (n ∷ taken) e c =
    let rest = handle_client_write_loop taken e (erase n c) in
    elim (Bool-cases (is_empty c.write_buffer)) [
      | inl empty ↦ rw (erase_empty (n + total taken) c empty) (
          handle_client_write_empty (n ∷ taken) e c empty
          ∙ sym (handle_client_write_empty [] e c empty))
      | inr full ↦
          handle_client_write_next n taken e c full
          ∙ rest
          ∙ ap (handle_client_write [] e) (erase-erase n (total taken) c)
    ]

-- What was sent and what is left are in order what was to be sent.
settle_keeps :
    (e : Failure) (c : ClientConnection)
    → (handle_client_write [] e c).sent ++ (handle_client_write [] e c).write_buffer
      ≡ c.sent ++ c.write_buffer
unfolding handle_client_write disarm on_failure
settle_keeps would_block c = ground arith
settle_keeps failed c = ground arith

erase_keeps :
    (n : ℕ) (c : ClientConnection)
    → (erase n c).sent ++ (erase n c).write_buffer ≡ c.sent ++ c.write_buffer
unfolding erase
erase_keeps n c =
    append_assoc c.sent (take n c.write_buffer) (drop n c.write_buffer)
    ∙ ap (λ s. c.sent ++ s) (take-append-drop n c.write_buffer)

handle_client_write_keeps :
    (taken : List ℕ) (e : Failure) (c : ClientConnection)
    → (handle_client_write taken e c).sent ++ (handle_client_write taken e c).write_buffer
      ≡ c.sent ++ c.write_buffer
handle_client_write_keeps taken e c =
    rw (handle_client_write_loop taken e c)
      (settle_keeps e (erase (total taken) c) ∙ erase_keeps (total taken) c)

settle_lem :
    (e : Failure) (n : ℕ) (c : ClientConnection)
    → handle_client_write [] e (erase n c)
      ≡ (if is_empty (drop n c.write_buffer) then disarm (erase n c) else on_failure e (erase n c))
unfolding handle_client_write erase
settle_lem e n c = refl

-- However `send` cuts the replies up, the handler sends as many bytes of the write buffer as the calls
-- take in all. If nothing is left then, the connection waits no more to write, and else the error of
-- the last call counts, which closes the connection unless the call would block. The bytes sent and
-- those left to send are, in order, what they were before.
pub handle_client_write_lem :
    (taken : List ℕ) (e : Failure) (c : ClientConnection)
    → let c' = handle_client_write taken e c in
      let all = erase (total taken) c in
      (c' ≡ (if is_empty (drop (total taken) c.write_buffer) then disarm all else on_failure e all))
      × (c'.sent ++ c'.write_buffer ≡ c.sent ++ c.write_buffer)
handle_client_write_lem taken e c = (
  handle_client_write_loop taken e c ∙ settle_lem e (total taken) c,
  handle_client_write_keeps taken e c,
)

settle-fd : (e : Failure) (c : ClientConnection) → (handle_client_write [] e c).fd ≡ c.fd
unfolding handle_client_write disarm on_failure
settle-fd would_block c = ground arith
settle-fd failed c = ground arith

pub handle_client_write-fd :
    (taken : List ℕ) (e : Failure) (c : ClientConnection)
    → (handle_client_write taken e c).fd ≡ c.fd
unfolding erase
handle_client_write-fd taken e c =
    rw (handle_client_write_loop taken e c) (settle-fd e (erase (total taken) c))

settle-IsArmed :
    (e : Failure) (c : ClientConnection) → IsArmed c → IsArmed (handle_client_write [] e c)
unfolding handle_client_write disarm on_failure
settle-IsArmed would_block c armed = elim (Bool-cases (is_empty c.write_buffer)) [
  | inl empty ↦ rw empty (λ h. cc)
  | inr full ↦ rw full (λ h. armed full)
]
settle-IsArmed failed c armed = elim (Bool-cases (is_empty c.write_buffer)) [
  | inl empty ↦ rw empty (λ h. cc)
  | inr full ↦ rw full (λ h. armed full)
]

drop_empty : (n : ℕ) (s : Bytes) → is_empty s ≡ true → is_empty (drop n s) ≡ true
drop_empty n s e = rw (is_empty-nil s e, drop_nil n) refl

erase-IsArmed : (n : ℕ) (c : ClientConnection) → IsArmed c → IsArmed (erase n c)
unfolding erase
erase-IsArmed n c armed h = elim (Bool-cases (is_empty c.write_buffer)) [
  | inl empty ↦ let gone = drop_empty n c.write_buffer empty in cc
  | inr full ↦ armed full
]

pub handle_client_write-IsArmed :
    (taken : List ℕ) (e : Failure) (c : ClientConnection)
    → IsArmed c
    → IsArmed (handle_client_write taken e c)
handle_client_write-IsArmed taken e c armed =
    rw (handle_client_write_loop taken e c)
      (settle-IsArmed e (erase (total taken) c) (erase-IsArmed (total taken) c armed))
