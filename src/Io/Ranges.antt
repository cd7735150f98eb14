-- ===== src/Io/Ranges.antt =====
-- The address ranges of each controller model, src/ServiceReadWriteIO.c.
use motoros.Prelude.{ℕ, Bool, ◌&&◌, leb}
use motoros.MotoPlus.{Model, dx100, fs100, dx200, yrc1000, yrc1000u}

-- A range of addresses, both ends included: a pair of `..MIN` and `..MAX`.
pub record Range : Type 0 where
  pub min : ℕ
  pub max : ℕ

unfoldable pub within : ℕ → Range → Bool
within address r = leb r.min address && leb address r.max

pub record IoRanges : Type 0 where
  pub general_in : Range
  pub general_out : Range
  pub external_in : Range
  pub network_in : Range
  pub network_out : Range
  pub external_out : Range
  pub specific_in : Range
  pub specific_out : Range
  pub if_panel : Range
  pub aux_relay : Range
  pub control_status : Range
  pub pseudo_input : Range
  pub register_read : Range
  pub register_write : Range

abbrev pub dx100_ranges : IoRanges
dx100_ranges = record {
  general_in = record { min = 10; max = 2567 };
  general_out = record { min = 10010; max = 12567 };
  external_in = record { min = 20010; max = 22567 };
  network_in = record { min = 25010; max = 27567 };
  network_out = record { min = 35010; max = 37567 };
  external_out = record { min = 30010; max = 32567 };
  specific_in = record { min = 40010; max = 41607 };
  specific_out = record { min = 50010; max = 52007 };
  if_panel = record { min = 60010; max = 60647 };
  aux_relay = record { min = 70010; max = 79997 };
  control_status = record { min = 80010; max = 80647 };
  pseudo_input = record { min = 82010; max = 82207 };
  register_read = record { min = 1000000; max = 1000999 };
  register_write = record { min = 1000000; max = 1000559 };
}

abbrev pub fs100_ranges : IoRanges
fs100_ranges = record {
  general_in = record { min = 10; max = 1287 };
  general_out = record { min = 10010; max = 11287 };
  external_in = record { min = 20010; max = 21287 };
  network_in = record { min = 25010; max = 26287 };
  network_out = record { min = 35010; max = 36287 };
  external_out = record { min = 30010; max = 31287 };
  specific_in = record { min = 40010; max = 41607 };
  specific_out = record { min = 50010; max = 52007 };
  if_panel = record { min = 60010; max = 60647 };
  aux_relay = record { min = 70010; max = 79997 };
  control_status = record { min = 80010; max = 80647 };
  pseudo_input = record { min = 82010; max = 82207 };
  register_read = record { min = 1000000; max = 1000999 };
  register_write = record { min = 1000000; max = 1000559 };
}

abbrev pub dx200_ranges : IoRanges
dx200_ranges = record {
  general_in = record { min = 10; max = 5127 };
  general_out = record { min = 10010; max = 15127 };
  external_in = record { min = 20010; max = 25127 };
  network_in = record { min = 27010; max = 29567 };
  network_out = record { min = 37010; max = 39567 };
  external_out = record { min = 30010; max = 35127 };
  specific_in = record { min = 40010; max = 41607 };
  specific_out = record { min = 50010; max = 53007 };
  if_panel = record { min = 60010; max = 60647 };
  aux_relay = record { min = 70010; max = 79997 };
  control_status = record { min = 80010; max = 82007 };
  pseudo_input = record { min = 82010; max = 82207 };
  register_read = record { min = 1000000; max = 1000999 };
  register_write = record { min = 1000000; max = 1000559 };
}

abbrev pub yrc1000_ranges : IoRanges
yrc1000_ranges = record {
  general_in = record { min = 10; max = 5127 };
  general_out = record { min = 10010; max = 15127 };
  external_in = record { min = 20010; max = 25127 };
  network_in = record { min = 27010; max = 29567 };
  network_out = record { min = 37010; max = 39567 };
  external_out = record { min = 30010; max = 35127 };
  specific_in = record { min = 40010; max = 42567 };
  specific_out = record { min = 50010; max = 55127 };
  if_panel = record { min = 60010; max = 60647 };
  aux_relay = record { min = 70010; max = 79997 };
  control_status = record { min = 80010; max = 85127 };
  pseudo_input = record { min = 87010; max = 87207 };
  register_read = record { min = 1000000; max = 1000999 };
  register_write = record { min = 1000000; max = 1000559 };
}

abbrev pub yrc1000u_ranges : IoRanges
yrc1000u_ranges = record {
  general_in = record { min = 10; max = 5127 };
  general_out = record { min = 10010; max = 15127 };
  external_in = record { min = 20010; max = 21287 };
  network_in = record { min = 27010; max = 29567 };
  network_out = record { min = 37010; max = 39567 };
  external_out = record { min = 30010; max = 31287 };
  specific_in = record { min = 40010; max = 42567 };
  specific_out = record { min = 50010; max = 55127 };
  if_panel = record { min = 60010; max = 60647 };
  aux_relay = record { min = 70010; max = 79997 };
  control_status = record { min = 80010; max = 85127 };
  pseudo_input = record { min = 87010; max = 87207 };
  register_read = record { min = 1000000; max = 1000999 };
  register_write = record { min = 1000000; max = 1000559 };
}

abbrev pub ranges : Model → IoRanges
ranges dx100 = dx100_ranges
ranges fs100 = fs100_ranges
ranges dx200 = dx200_ranges
ranges yrc1000 = yrc1000_ranges
ranges yrc1000u = yrc1000u_ranges
