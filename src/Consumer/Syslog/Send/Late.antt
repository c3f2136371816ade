-- ===== src/Consumer/Syslog/Send/Late.antt =====
-- consumer/consumer_syslog.go: a send that takes longer than its timer ends the process.
use windns_logtail.Base.{
  Text, ◌≤◌, true, false, [], ◌∷◌, ◌≡◌, ◌≢◌, ◌⊎◌, refl, sym, ap, subst, arith, length,
  length-append,
}
use windns_logtail.Consumer.Syslog.Send.{
  writing, ended, crashed, selecting, Sending, begun, SendStep, writes, write_fails, signals,
  panics, receives, expires, SendRun, starts, and_then,
}

-- What holds of a send at every moment.
record IsSending (s : Sending) : Type 0 where
  open_yet : s.waiter ≡ selecting → s.closed ≡ false
  timed : s.expired ≡ true → s.closed ≡ true
  calm : s.expired ≡ false → s.sender ≢ crashed
  signalled : s.buffered ≡ true → s.sender ≡ ended
  received : s.expired ≡ false → s.closed ≡ true → s.sender ≡ ended
  once : (length s.written ≤ 1) × (s.sender ≡ writing → s.written ≡ [])

SendStep-IsSending : {line : Text} {s t : Sending} → SendStep line s t → IsSending s → IsSending t
SendStep-IsSending {line} {s} {t} (writes at e) v = subst IsSending (sym e) (record {
  open_yet = ground arith;
  timed = ground arith;
  calm = ground arith;
  signalled = ground arith;
  received = ground arith;
  once = (
    omega (arith, length-append s.written (line ∷ []), ap length (v.once.1 at)),
    λ h. ground arith,
  );
})
SendStep-IsSending {line} {s} {t} (write_fails at e) v = subst IsSending (sym e) (record {
  open_yet = ground arith;
  timed = ground arith;
  calm = ground arith;
  signalled = ground arith;
  received = ground arith;
  once = ground arith;
})
SendStep-IsSending {line} {s} {t} (signals at open_yet e) v = subst IsSending (sym e) (record {
  open_yet = ground arith;
  timed = ground arith;
  calm = ground arith;
  signalled = ground arith;
  received = ground arith;
  once = ground arith;
})
SendStep-IsSending {line} {s} {t} (panics at shut e) v = subst IsSending (sym e) (record {
  open_yet = ground arith;
  timed = ground arith;
  calm = ground arith;
  signalled = ground arith;
  received = ground arith;
  once = ground arith;
})
SendStep-IsSending {line} {s} {t} (receives at ready e) v = subst IsSending (sym e) (record {
  open_yet = ground arith;
  timed = ground arith;
  calm = ground arith;
  signalled = ground arith;
  received = ground arith;
  once = ground arith;
})
SendStep-IsSending {line} {s} {t} (expires at e) v = subst IsSending (sym e) (record {
  open_yet = ground arith;
  timed = ground arith;
  calm = ground arith;
  signalled = ground arith;
  received = ground arith;
  once = ground arith;
})

begun-IsSending : IsSending begun
begun-IsSending = record {
  open_yet = λ h. refl;
  timed = ground arith;
  calm = ground arith;
  signalled = ground arith;
  received = ground arith;
  once = (omega arith, λ h. refl);
}

SendRun-IsSending : {line : Text} {s t : Sending} → SendRun line s t → IsSending s → IsSending t
SendRun-IsSending starts v = v
SendRun-IsSending (and_then r p) v = SendStep-IsSending p (SendRun-IsSending r v)

-- The channel is closed, and the goroutine has not sent on it.
abbrev IsLate : Sending → Type 0
IsLate s = (s.closed ≡ true) × (s.sender ≢ ended)

SendStep-IsLate : {line : Text} {s t : Sending} → SendStep line s t → IsLate s → IsLate t
SendStep-IsLate (writes at e) late = subst IsLate (sym e) (late.0, λ h. ground arith)
SendStep-IsLate (write_fails at e) late = subst IsLate (sym e) (late.0, λ h. ground arith)
SendStep-IsLate (signals at open_yet e) late = ground arith
SendStep-IsLate (panics at shut e) late = subst IsLate (sym e) (late.0, λ h. ground arith)
SendStep-IsLate (receives at ready e) late = subst IsLate (sym e) (refl, late.1)
SendStep-IsLate (expires at e) late = subst IsLate (sym e) (refl, late.1)

SendRun-IsLate : {line : Text} {s t : Sending} → SendRun line s t → IsLate s → IsLate t
SendRun-IsLate starts late = late
SendRun-IsLate (and_then r p) late = SendStep-IsLate p (SendRun-IsLate r late)

-- The goroutine has nothing more to do.
abbrev pub IsOver : Sending → Type 0
IsOver s = (s.sender ≡ ended) ⊎ (s.sender ≡ crashed)

-- Of a message at most one line reaches the server. While the timer has not expired, nothing
-- panics; but if it has expired before the goroutine has signalled its end, then in whatever way
-- the send goes on, the goroutine ends by a panic, which takes the process down.
pub send_late :
    {line : Text} {s t : Sending}
    → SendRun line begun s
    → SendRun line s t
    → (length s.written ≤ 1)
      × (s.expired ≡ false → s.sender ≢ crashed)
      × (s.expired ≡ true → s.sender ≢ ended → IsOver t → t.sender ≡ crashed)
send_late {line} {s} {t} before after =
    let v = SendRun-IsSending before begun-IsSending in
    (
      v.once.0,
      v.calm,
      λ expired unsent over.
          let late : IsLate t = SendRun-IsLate after (v.timed expired, unsent) in ground arith,
    )
