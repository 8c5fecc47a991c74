-- ===== src/CloudHub/Retry.antt =====
-- cloud/pkg/cloudhub/handler/messagehandler.go: how often `sendMsg` writes a message, and that it ends.
use envoyingresscontroller.Prelude.{
  ℕ, suc, ◌≤◌, true, false, ◌≡◌, refl, Option, none, List, [], ◌∷◌, ◌++◌, Text, replicate, eqb,
  Error, arith, discard,
}
use envoyingresscontroller.CloudHub.{HubMessage}
use envoyingresscontroller.CloudHub.Sends.{
  Event, acked, ticked, Answers, Sender, Link, Sent, settled, hub_io_write, send_loop,
  save_success_point,
}

-- The copies that a send has written.
abbrev pub IsWritten : Sender → HubMessage → ℕ → Sender → Type 0
IsWritten s copy most s' = (k : ℕ) × (k ≤ most) × (s'.written ≡ s.written ++ replicate k copy)

abbrev pub with_copy : HubMessage → Sender → Sender
with_copy copy s = record s { written = s.written ++ copy ∷ [] }

module _ (a : Answers) (node : Text) (copy m : HubMessage) (links : ℕ → Link) (retry : ℕ)
    (es : List Event) (s : Sender) where
  pub ack :
      send_loop a node copy m links retry (acked ∷ es) s
      ≡ settled
          (save_success_point a node m (record s { message_acks = discard copy.id s.message_acks }))
          none
  unfolding send_loop
  ack = refl

  pub last_tick :
      eqb retry 4 ≡ true → send_loop a node copy m links retry (ticked ∷ es) s ≡ settled s none
  unfolding send_loop
  last_tick p = ground (arith, p)

  pub tick :
      eqb retry 4 ≡ false
      → hub_io_write (links (suc retry)) copy s ≡ (with_copy copy s, none)
      → send_loop a node copy m links retry (ticked ∷ es) s
        ≡ send_loop a node copy m links (suc retry) es (with_copy copy s)
  unfolding send_loop
  tick p w = rw (p, w) refl

abbrev pub Settles : Sender → HubMessage → ℕ → Sent → Type 0
Settles s copy most r =
    (s' : Sender) × (failure : Option Error) × (r ≡ settled s' failure) × IsWritten s copy most s'
