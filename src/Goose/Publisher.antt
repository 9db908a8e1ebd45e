-- ===== src/Goose/Publisher.antt =====
-- crates/iec61850-goose/src/publisher.rs: the loop of `run` as a step per event. Durations are in
-- nanoseconds. The channel of values, the timer and the clock are the events; the link is the list of
-- frames that were sent. `==` on values is a parameter, since it is that of floats within them; the
-- overflow of `Duration` beyond 2 ^ 64 seconds is left aside.
pub mod Sequence
use iec_61850_studio.Base.{
  ℕ, ◌+◌, ◌-◌, ◌*◌, ◌/◌, ◌%◌, ◌^◌, min, Option, none, some, Bool, true, false, ◌==◌, ◌&&◌,
  if◌then◌else◌,
}
use iec_61850_studio.Base.Words.{Bytes}
use iec_61850_studio.Ber.Data.{UtcTime, Items, nil, cons}
use iec_61850_studio.Ethernet.{VlanTag}
use iec_61850_studio.Goose.Pdu.{GoosePdu}
use iec_61850_studio.Goose.Frame.{GooseFrame}

pub record GooseConfig : Type 0 where
  pub dst : Bytes
  pub src : Bytes
  pub vlan : Option VlanTag
  pub appid : ℕ
  pub gocb_ref : Bytes
  pub dat_set : Bytes
  pub go_id : Bytes
  pub conf_rev : ℕ
  pub test : Bool
  pub simulation : Bool
  pub t_min : ℕ
  pub t_max : ℕ

-- The variables of `run`.
pub record State : Type 0 where
  pub st_num : ℕ
  pub sq_num : ℕ
  pub last_values : Items
  pub t : UtcTime
  pub interval : ℕ
  pub started : Bool

unfoldable pub initial : GooseConfig → UtcTime → State
initial config now = record {
  st_num = 1;
  sq_num = 0;
  last_values = nil;
  t = now;
  interval = config.t_min;
  started = false;
}

-- `u32::wrapping_add(1)`
abbrev pub wrapping_succ : ℕ → ℕ
wrapping_succ n = (n + 1) % 2 ^ 32

-- A change of state: the next number, which is never 0.
unfoldable pub next_st_num : ℕ → ℕ
next_st_num st_num = if wrapping_succ st_num == 0 then 1 else wrapping_succ st_num

abbrev pub count : Items → ℕ
count nil = 0
count (cons d items) = 1 + count items

-- `time_allowed_to_live`, twice the next interval in milliseconds.
unfoldable pub ttl_ms : ℕ → ℕ
ttl_ms next_interval = min (2 * (next_interval / 1000000)) (2 ^ 32 - 1)

-- What `send_frame` encodes.
unfoldable pub sent_frame : GooseConfig → State → GooseFrame
sent_frame config s = record {
  dst = config.dst;
  src = config.src;
  vlan = config.vlan;
  appid = config.appid;
  simulation = config.simulation;
  pdu = record {
    gocb_ref = config.gocb_ref;
    time_allowed_to_live = ttl_ms s.interval;
    dat_set = config.dat_set;
    go_id = config.go_id;
    t = s.t;
    st_num = s.st_num;
    sq_num = s.sq_num;
    test = config.test;
    conf_rev = config.conf_rev;
    nds_com = false;
    num_dat_set_entries = count s.last_values % 2 ^ 32;
    all_data = s.last_values;
  };
}

-- The state behind new values.
unfoldable pub changed : GooseConfig → UtcTime → Items → State → State
changed config now values s = record {
  st_num = if s.started then next_st_num s.st_num else s.st_num;
  sq_num = 0;
  last_values = values;
  t = now;
  interval = config.t_min;
  started = true;
}

-- The arm of the channel: `same` is `==` on values, and nothing is sent where they did not change.
unfoldable pub on_values :
    GooseConfig → (Items → Items → Bool) → UtcTime → Items → State → State × Option GooseFrame
on_values config same now values s =
    if s.started && same values s.last_values
    then (s, none)
    else (changed config now values s, some (sent_frame config (changed config now values s)))

-- The state behind a retransmission.
unfoldable pub retransmitted : GooseConfig → State → State
retransmitted config s = record s {
  sq_num = wrapping_succ s.sq_num;
  interval = min (s.interval * 2) config.t_max;
}

-- The arm of the timer, which is off until values came.
unfoldable pub on_timer : GooseConfig → State → State × Option GooseFrame
on_timer config s =
    if s.started
    then (retransmitted config s, some (sent_frame config (retransmitted config s)))
    else (s, none)
