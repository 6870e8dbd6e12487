-- ===== src/Api/Examples/Start.antt =====
-- The theorem on the program from its start, at two days' requests.
use refundagent.Common.{◌≡◌, ◌++◌, refl}
use refundagent.Api.Examples.{asking, same_case, day}
use refundagent.Api.Seeded.{IsSound, seeded, seeded-IsSound}
use refundagent.Api.Server.{serve_all}
use refundagent.Domain.Result.{ok}
use refundagent.Store.Seed.{SeedProfile}

seeded-IsSound_example :
    ((seeded same_case SeedProfile.injected_item (λ n. 120)).0 ≡ ok tt)
    × IsSound (
        serve_all same_case asking 13 3
          (day ++ day)
          (seeded same_case SeedProfile.injected_item (λ n. 120)).1)
seeded-IsSound_example =
    seeded-IsSound same_case SeedProfile.injected_item (λ n. 120) asking 13 3 (day ++ day) refl refl
