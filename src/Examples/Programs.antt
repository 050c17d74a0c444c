-- ===== src/Examples/Programs.antt =====
-- Witnesses of the theorems on the programs under example.
use petace_verse.Common.{◌+◌, ◌*◌}
use petace_verse.Util.Bytes.{to_bytes, length-to_bytes}
use petace_verse.Programs.{Environment, IsEnvironment}
use petace_verse.Programs.NpOtRun.{NpOtPrinted, np_ot_example_prints}
use petace_verse.Programs.IknpOtRun.{IknpOtPrinted, iknp_ot_example_prints}
use petace_verse.Programs.KkrtOtRun.{KkrtOtPrinted, kkrt_ot_example_prints}
use petace_verse.Examples.Toy.{toy, toy-IsCrypto, to_bytes-IsByte}
use petace_verse.Examples.NaorPinkas.{pair_group, AnyPoint, pair_group-IsCurve, any_points}

abbrev pub env0 : Environment pair_group
env0 = record {
  random_bytes = λ n. to_bytes 16 (n * 1_000_003 + 0x9234_5678_9abc_def0);
  sender_source = 5;
  receiver_source = 9;
}

abbrev pub env1 : Environment pair_group
env1 = record {
  random_bytes = λ n. to_bytes 16 (n * 1_000_033 + 0x1234_fedc);
  sender_source = 7;
  receiver_source = 2;
}

pub env0-IsEnvironment : IsEnvironment env0
env0-IsEnvironment = record {
  bytes = λ n. to_bytes-IsByte 16 (n * 1_000_003 + 0x9234_5678_9abc_def0);
  sixteen = λ n. length-to_bytes 16 (n * 1_000_003 + 0x9234_5678_9abc_def0);
}

pub env1-IsEnvironment : IsEnvironment env1
env1-IsEnvironment = record {
  bytes = λ n. to_bytes-IsByte 16 (n * 1_000_033 + 0x1234_fedc);
  sixteen = λ n. length-to_bytes 16 (n * 1_000_033 + 0x1234_fedc);
}

np_ot_example_prints_example : NpOtPrinted toy pair_group env0 env1
np_ot_example_prints_example =
    np_ot_example_prints toy pair_group env0 env1 AnyPoint pair_group-IsCurve
      (λ sigma e. any_points sigma, tt)

iknp_ot_example_prints_example : IknpOtPrinted toy pair_group env0 env1
iknp_ot_example_prints_example =
    iknp_ot_example_prints toy pair_group env0 env1 AnyPoint toy-IsCrypto pair_group-IsCurve
      env0-IsEnvironment env1-IsEnvironment (λ sigma e. any_points sigma, tt)

kkrt_ot_example_prints_example : KkrtOtPrinted toy pair_group env0 env1
kkrt_ot_example_prints_example =
    kkrt_ot_example_prints toy pair_group env0 env1 AnyPoint toy-IsCrypto pair_group-IsCurve
      env0-IsEnvironment (λ sigma e. any_points sigma, tt)
