-- ===== src/Cli/Output/Laws.antt =====
-- When the tool stops to wait for packets.
use upc.Common.{
  ℕ, ◌+◌, ◌≡◌, refl, sym, ap, ◌∙◌, List, [], ◌∷◌, ◌++◌, Bool, true, false, ◌||◌, ltb, leb, arith,
  Result, if◌then◌else◌, Option, none, some, ok, Bool-cases, inl, inr,
}
use mathlib.Core.List.{append_assoc, append-nil}
use upc.Cli.Output.{
  idle_timeout, Event, packet, stdin_closed, tick, finished, State, initial, go, stop, recv_round,
  take_branch, Outcome, recv_loop, waits, ended, recv_fut, finish,
}

-- A packet that arrives at a time, or only time.
abbrev pub Arrival : Type 0
Arrival = ℕ × Option (List ℕ)

abbrev pub event : Arrival → ℕ × Event
event (now, none) = (now, tick)
event (now, some p) = (now, packet p none)

abbrev pub events : List Arrival → List (ℕ × Event)
events [] = []
events (a ∷ more) = event a ∷ events more

abbrev pub arrived : List Arrival → List (List ℕ)
arrived [] = []
arrived ((now, none) ∷ rest) = arrived rest
arrived ((now, some p) ∷ rest) = p ∷ arrived rest

-- The packets at their times.
abbrev pub packets : List (ℕ × List ℕ) → List (ℕ × Event)
packets [] = []
packets ((now, p) ∷ rest) = (now, packet p none) ∷ packets rest

abbrev pub contents : List (ℕ × List ℕ) → List (List ℕ)
contents [] = []
contents ((now, p) ∷ rest) = p ∷ contents rest

-- The time of the last of them, and `t` without any.
abbrev pub last_time : ℕ → List (ℕ × List ℕ) → ℕ
last_time t [] = t
last_time t ((now, p) ∷ rest) = last_time now rest

waiting_state : List (List ℕ) → State
waiting_state written = record { written = written; stdin_done = false; deadline = none }

-- While stdin is open.
before_end :
    (arrivals : List Arrival) (later : List (ℕ × Event)) (written : List (List ℕ))
    → recv_loop (events arrivals ++ later) (go (waiting_state written))
      ≡ recv_loop later (go (waiting_state (written ++ arrived arrivals)))
unfolding recv_loop recv_round take_branch waiting_state
before_end [] later written =
    ap (λ w. recv_loop later (go (waiting_state w))) (sym (append-nil written))
before_end ((now, none) ∷ rest) later written = before_end rest later written
before_end ((now, some p) ∷ rest) later written =
    before_end rest later (written ++ (p ∷ []))
    ∙ ap (λ w. recv_loop later (go (waiting_state w)))
        (append_assoc written (p ∷ []) (arrived rest))

-- The packets up to the first that comes more than a second behind the one before it, or behind `t`.
abbrev pub in_time : ℕ → List (ℕ × List ℕ) → List (ℕ × List ℕ)
in_time t [] = []
in_time t ((now, p) ∷ rest) =
    let later = in_time now rest in if ltb (t + idle_timeout) now then [] else (now, p) ∷ later

-- Whether there is such a packet.
abbrev pub has_gap : ℕ → List (ℕ × List ℕ) → Bool
has_gap t [] = false
has_gap t ((now, p) ∷ rest) = ltb (t + idle_timeout) now || has_gap now rest

idle_state : ℕ → List (List ℕ) → State
idle_state t written = record {
  written = written;
  stdin_done = true;
  deadline = some (t + idle_timeout);
}

-- Until the connection ends, every packet is written.
pub recv_fut-finished :
    (keep : Bool) (arrivals : List Arrival) (now : ℕ)
    → recv_fut keep (events arrivals ++ ((now, finished) ∷ []))
      ≡ ended (record { written = arrived arrivals; result = ok tt; stdout_open = keep })
unfolding recv_fut initial waiting_state recv_loop recv_round take_branch
recv_fut-finished keep arrivals now =
    ap (finish keep) (before_end arrivals ((now, finished) ∷ []) [])

loop_stopped :
    (es : List (ℕ × Event)) (s : State) (r : Result (Unit {0})) → recv_loop es (stop s r) ≡ stop s r
unfolding recv_loop
loop_stopped [] s r = refl
loop_stopped (e ∷ es) s r = refl

-- Where the loop is at the time `now`, if the packets written are `written`, the last of them came at
-- `last`, and `gap` says whether a second has passed behind it before.
abbrev pub at_time : Bool → ℕ → Bool → ℕ → List (List ℕ) → Outcome
at_time keep now gap last written =
    if gap || leb (last + idle_timeout) now
    then ended (record { written = written; result = ok tt; stdout_open = keep })
    else waits
        (record { written = written; stdin_done = true; deadline = some (last + idle_timeout) })

leb_of_ltb : (a b : ℕ) → ltb a b ≡ true → leb a b ≡ true
leb_of_ltb a b h = ground arith

last_round :
    (keep : Bool) (t now : ℕ) (written : List (List ℕ))
    → finish keep (recv_loop ((now, tick) ∷ []) (go (idle_state t written)))
      ≡ at_time keep now false t written
unfolding recv_loop recv_round take_branch idle_state
last_round keep t now written = elim (Bool-cases (ltb (t + idle_timeout) now)) [
  | inl over ↦ rw (over, leb_of_ltb (t + idle_timeout) now over) refl
  | inr not_yet ↦ elim (Bool-cases (leb (t + idle_timeout) now)) [
    | inl late ↦ rw (not_yet, late) refl
    | inr early ↦ rw (not_yet, early) refl
  ]
]

-- A packet once stdin is closed.
packet_round :
    (time t : ℕ) (p : List ℕ) (es : List (ℕ × Event)) (written : List (List ℕ))
    → recv_loop ((time, packet p none) ∷ es) (go (idle_state t written))
      ≡ recv_loop es (
          if ltb (t + idle_timeout) time
          then stop (idle_state t written) (ok tt)
          else go (idle_state time (written ++ (p ∷ []))))
unfolding recv_loop recv_round take_branch idle_state
packet_round time t p es written = refl

-- Once stdin is closed.
after_end :
    (keep : Bool) (rest : List (ℕ × List ℕ)) (now t : ℕ) (written : List (List ℕ))
    → finish keep (recv_loop (packets rest ++ ((now, tick) ∷ [])) (go (idle_state t written)))
      ≡ at_time keep now
          (has_gap t rest)
          (last_time t (in_time t rest))
          (written ++ contents (in_time t rest))
after_end keep [] now t written =
    last_round keep t now written ∙ ap (at_time keep now false t) (sym (append-nil written))
after_end keep ((time, p) ∷ rest) now t written =
    let later = packets rest ++ ((now, tick) ∷ []) in
    ap (finish keep) (packet_round time t p later written)
    ∙ elim (Bool-cases (ltb (t + idle_timeout) time)) [
      | inl over ↦
          rw (over, append-nil written)
            (ap (finish keep) (loop_stopped later (idle_state t written) (ok tt))
              ∙ unfold idle_state in refl)
      | inr soon ↦ rw soon (
          after_end keep rest now time (written ++ (p ∷ []))
          ∙ ap (at_time keep now (has_gap time rest) (last_time time (in_time time rest)))
              (append_assoc written (p ∷ []) (contents (in_time time rest))))
    ]

closing_round :
    (closing : ℕ) (later : List (ℕ × Event)) (written : List (List ℕ))
    → recv_loop ((closing, stdin_closed) ∷ later) (go (waiting_state written))
      ≡ recv_loop later (go (idle_state closing written))
unfolding recv_loop recv_round take_branch idle_state waiting_state
closing_round closing later written = refl

-- While stdin is open, the receiving half of the tool writes every packet and goes on, however much
-- time passes. Once stdin is closed, it writes the packets that come each within one second of the
-- one before, the first within one second of the close. At the first that comes later, or where a
-- second without a packet has passed at the time `now`, it has ended as a success with just these
-- written; else it waits, with the timer set to one second behind the last packet.
pub recv_fut-idle :
    (keep : Bool) (before : List Arrival) (closing : ℕ) (rest : List (ℕ × List ℕ)) (now : ℕ)
    → recv_fut keep
        (events before ++ ((closing, stdin_closed) ∷ packets rest ++ ((now, tick) ∷ [])))
      ≡ at_time keep now
          (has_gap closing rest)
          (last_time closing (in_time closing rest))
          (arrived before ++ contents (in_time closing rest))
unfolding recv_fut initial waiting_state
recv_fut-idle keep before closing rest now =
    ap (finish keep) (
      before_end before _ []
      ∙ closing_round closing (packets rest ++ ((now, tick) ∷ [])) (arrived before))
    ∙ after_end keep rest now closing (arrived before)
