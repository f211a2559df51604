-- ===== src/Api/Main/Tests.antt =====
-- `main` of src/zalloc.c on a map of 2^31 bytes at 2^40, with a registry of one handler.
use zalloc.Base.{◌^◌, ◌≡◌, refl, [], ◌∷◌, some, ◌-◌, true, false, ok, arith}
use zalloc.Buddy.Create.{zero_node}
use zalloc.Buddy.Create.Correct.{HasRoom-of}
use zalloc.Buddy.Tree.{unused}
use zalloc.Buddy.Repr.{buddy_of}
use zalloc.Mapped.{World}
use zalloc.Mapped.Service.{Ready}
use zalloc.Handler.Plain.{plain, compare_names, own_name}
use zalloc.Handler.{find_name, handler_get}
use zalloc.Api.{Process}
use zalloc.Api.Main.{limit, limit_config, main}
use zalloc.Api.Main.Ending.{MainEnded, limit_lines, main-MainEnded}

abbrev world : World
world = record { opened = 3; st_size = 2 ^ 31; mapped = 2 ^ 40; got = true; old = λ _. zero_node }

abbrev mapped : Process
mapped = record {
  heap = record {
    is_init = true;
    is_deinit = false;
    buddy = some (buddy_of 19 (2 ^ 20 - 1) (λ _. zero_node));
    memblock = 2 ^ 40;
    fd = 3;
    registered = 1;
  };
  memory = λ a. 0;
}

ready : Ready mapped.heap unused
ready = record {
  init = refl;
  alloc = buddy_of 19 (2 ^ 20 - 1) (λ _. zero_node);
  held = refl;
  valid = record {
    level = omega arith;
    nodes = omega arith;
    room = HasRoom-of (2 ^ 20 - 1) 0 19 (omega arith);
    block = refl;
  };
  height = refl;
  base = omega arith;
  fits = omega arith;
}

-- The limit of 26 bytes is shown as 64 MB.
shown : limit_config 0 0 26 ≡ ok (limit 64 ∷ [])
unfolding limit_config
shown = refl

found : handler_get plain own_name compare_names (7 ∷ [], []) 7 ≡ some 7
unfolding handler_get find_name
found = refl

main-MainEnded_example :
    MainEnded
      (2 ^ 40)
      (limit_lines 0 0 26)
      (handler_get plain own_name compare_names (7 ∷ [], []) 7)
      (main plain own_name compare_names 7 world (2 ^ 21) 0 0 26 (7 ∷ [], []) mapped)
main-MainEnded_example =
    main-MainEnded plain own_name compare_names 7 world (2 ^ 21) 0 0 26 (7 ∷ [], []) mapped
      (omega arith) (omega arith) ready
