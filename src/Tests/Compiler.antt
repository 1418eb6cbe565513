-- ===== src/Tests/Compiler.antt =====
-- Runs of src/compile.c and src/user_import.c.
use wait.Common.{none}
use wait.Parse.{WasmModule}
use wait.Emit.{State}
use wait.Instructions.{Module, Func}
use wait.Compile.Functions.{compile_loop}
use wait.Compile.Functions.Ends.{Outcome, compile_loop-Outcome}
use wait.Common.{
  ℕ, ◌+◌, ◌-◌, ◌*◌, ◌%◌, ◌^◌, ◌<◌, ◌≤◌, ◌≡◌, ◌⊎◌, inl, refl, List, [], ◌∷◌, get_or, arith,
}
use wait.Common.{ok, panic, false}
use wait.Leb.{
  Flash, read_leb_i32, read_leb_u32, read_leb_unsigned, read_leb_unsigned_loop, read_leb_signed,
  read_leb_signed_loop, or_group, sign_extend,
}
use wait.Memory.{MemArea, Memory}
use wait.Memory.Areas.{IsPlaced}
use wait.Parse.{WasmGlobal, DataSegment}
use wait.Compile.{Compiler}
use wait.Compile.Refill.{is_embed_func, call_address, branch_pc_refill}
use wait.Compile.Refill.Round.{Item, jmp, call, other, HoldsWords}
use wait.Compile.Refill.Resolved.{branch_pc_refill_lem}
use wait.Compile.Refill.Words.{all_after}
use wait.Compile.Link.{c_text, link_import, imports_name, imports_table}
use wait.Compile.Link.Named.{IsLast, IsMissing, link_import_lem}
use wait.Compile.Globals.{wasm_global_init}
use wait.Compile.Globals.Offsets.{wasm_global_init_lem}
use wait.Compile.Placing.{Placing, Space, segment_start, place_memory}
use wait.Compile.Placing.Placed.{memory_of, HasRoom, EndsAtStack, place_one-IsPlaced}
use wait.Imports.{import_malloc, import_memset, import_memcpy}
use wait.Imports.Malloc.{AreStacked, import_malloc-AreStacked}
use wait.Imports.Copies.{filled, import_memset_lem, import_memcpy-rom, import_memcpy-ram}

-- JMP to the label 3, CALL of the signed division, RET; the label has pc 8.
abbrev items : List Item
items = jmp 3 8 ∷ call 0xffff 0x1234 ∷ other 0x9508 ∷ []

abbrev rom : ℕ → ℕ
rom a =
    get_or (0x0c ∷ 0x94 ∷ 0x03 ∷ 0x00 ∷ 0x0e ∷ 0x94 ∷ 0xff ∷ 0xff ∷ 0x08 ∷ 0x95 ∷ []) (a - 512) 0

abbrev compiler : Compiler
compiler = record {
  state = record {
    buffer = [];
    pc = 10;
    stack_top = 0;
    wasm_globals_size = 0;
    wasm_mem_space = 0;
    next_id = 4;
    top = 0;
    block_label = [];
    block_stack = [];
    block_type = [];
    block_pc = 0 ∷ 0 ∷ 0 ∷ 8 ∷ [];
    writer = record {
      rom = rom;
      pagebuffer = λ i. 0;
      pageaddress = 0;
      end_of_safe_region = 0;
      buf_len = 0;
    };
    start = 0;
  };
  next_method = 0;
}

branch_pc_refill_lem_example :
    (c' : Compiler) × (branch_pc_refill 512 (λ id. 0x1234) [] compiler ≡ ok c')
    × HoldsWords c'.state.writer.rom 512 (all_after 512 items)
    × ((a : ℕ) → ((512 ≤ a) × (a < 512 + 10)) ⊎ (c'.state.writer.rom a ≡ rom a))
    × (c'.next_method * 2 ≡ 512 + 10)
unfolding call_address is_embed_func
branch_pc_refill_lem_example =
    branch_pc_refill_lem 512 (λ id. 0x1234) [] items compiler refl (omega arith) (omega arith) refl
      refl (omega arith) (omega arith) (refl, (refl, ((λ e. omega arith, λ e. omega arith), tt)))
      (refl, (refl, (refl, (refl, (refl, tt)))))

abbrev imports : List (List ℕ × ℕ)
imports = imports_table (100 ∷ 200 ∷ 300 ∷ 400 ∷ 500 ∷ 600 ∷ 700 ∷ []) imports_name

abbrev memset_name : List ℕ
memset_name = 109 ∷ 101 ∷ 109 ∷ 115 ∷ 101 ∷ 116 ∷ []

link_import_lem_example :
    ((link_import imports memset_name ≡ panic) × IsMissing (c_text memset_name) imports)
    ⊎ ((address : ℕ) × (link_import imports memset_name ≡ ok address)
        × IsLast (c_text memset_name) address imports)
link_import_lem_example = link_import_lem imports memset_name

-- i32.const 1024 and its end.
abbrev flash : Flash
flash p = get_or (0x41 ∷ 0x80 ∷ 0x08 ∷ 0x0b ∷ 0x41 ∷ 0x64 ∷ 0x0b ∷ []) p 0

abbrev global : WasmGlobal
global = record { init_expr = 0; init_expr_size = 4; type = 1; imported = false; is_mutable = 1 }

reads_global : read_leb_i32 flash 1 4 ≡ ok (1024, 3)
unfolding read_leb_i32 read_leb_signed read_leb_signed_loop or_group sign_extend
reads_global = refl

wasm_global_init_lem_example :
    wasm_global_init flash 7 (global ∷ [])
    ≡ ok (record { temp_space = 1024 ∷ []; offsets = 0 ∷ []; offset = 4; heap_base = 1024 })
wasm_global_init_lem_example =
    wasm_global_init_lem flash 7 ((global, 1024) ∷ []) ((refl, 3, reads_global), tt) (omega arith)

abbrev segment : DataSegment
segment = record {
  init_expr = 0;
  bytes = 600;
  init_expr_size = 4;
  memory_region = 0;
  size = 20;
  spill = 0;
}

starts : segment_start flash segment ≡ ok 1024
unfolding segment_start read_leb_u32 read_leb_unsigned read_leb_unsigned_loop or_group
starts = refl

abbrev space : Space
space = record { mem_space = 0x400; globals_size = 4; stack_pointer = 0x10ff; heap_base = 2048 }

abbrev no_area : MemArea
no_area = record { start = 0; end = 0; target = 0 }

abbrev unset : Placing
unset = record {
  read_only = no_area;
  writable = no_area;
  malloc_record = 0;
  copy_to = 0;
  copy_from = 0;
  copy_size = 0;
}

abbrev room : HasRoom space
room = record { below_stack = omega arith; in_ram = omega arith }

place_one-IsPlaced_example :
    (s' : Placing) × (place_memory space flash (segment ∷ []) unset ≡ ok s')
    × IsPlaced (memory_of s' rom rom)
    × (s'.read_only ≡ record { start = 1024; end = 1044; target = 600 })
    × (s'.writable.start ≡ 1044)
    × (s'.writable.target ≡ 0x404)
    × EndsAtStack space s'.writable
place_one-IsPlaced_example =
    place_one-IsPlaced space room flash unset rom rom segment 1024 starts (omega arith)

-- The bytes of a read-only segment, from 100 on.
abbrev low_segment : DataSegment
low_segment = record {
  init_expr = 4;
  bytes = 700;
  init_expr_size = 3;
  memory_region = 0;
  size = 30;
  spill = 0;
}

abbrev two_segments : WasmModule
two_segments = record {
  memory = record { init_page_num = 1; max_page_num = 0 };
  memory_imported = false;
  import_num = 0;
  global_list = global ∷ [];
  function_list = [];
  func_type_list = [];
  data_segment_list = low_segment ∷ segment ∷ [];
  behind_segments = none;
}

import_malloc-AreStacked_example :
    AreStacked 2048 ((2048, 10) ∷ (2058, 20) ∷ []) 2078 × (2078 ≡ 2048 + (10 + (20 + 0)))
unfolding import_malloc
import_malloc-AreStacked_example = import_malloc-AreStacked (10 ∷ 20 ∷ []) 2048 (omega arith)

abbrev memory : Memory
memory = record {
  read_only = record { start = 1024; end = 1044; target = 512 };
  writable = record { start = 1044; end = 4000; target = 0x404 };
  rom = rom;
  ram = λ a. 0;
}

import_memset_lem_example :
    (ram' : ℕ → ℕ) × (import_memset 1050 0x1ff 3 memory ≡ ok (1050, record memory { ram = ram' }))
    × ((a : ℕ) → ram' a ≡ filled (λ a. 0) 0x40a 3 (λ k. 0xff) a)
import_memset_lem_example =
    import_memset_lem memory 1050 0x1ff 3 (omega arith) (omega arith) (omega arith) (omega arith)

import_memcpy-rom_example :
    (ram' : ℕ → ℕ) × (import_memcpy 1050 1024 4 memory ≡ ok (1024, record memory { ram = ram' }))
    × ((a : ℕ) → ram' a ≡ filled (λ a. 0) 0x40a 4 (λ k. rom (512 + k) % 2 ^ 8) a)
import_memcpy-rom_example =
    import_memcpy-rom memory 1050 1024 4 refl (omega arith) (omega arith) (omega arith)
      (omega arith) (omega arith) (omega arith)

import_memcpy-ram_example :
    (ram' : ℕ → ℕ) × (import_memcpy 1044 1050 4 memory ≡ ok (1050, record memory { ram = ram' }))
    × ((a : ℕ) → ram' a ≡ filled (λ a. 0) 0x404 4 (λ k. 0) a)
import_memcpy-ram_example =
    import_memcpy-ram memory 1044 1050 4 refl (omega arith) (omega arith) (omega arith)
      (omega arith) (omega arith) (omega arith) (inl (omega arith))

-- i32.const 5, drop, end, in a function without a frame.
abbrev body : ℕ → ℕ
body a = get_or (0x41 ∷ 0x05 ∷ 0x1a ∷ 0x0b ∷ []) (a - 600) 0

abbrev dropping : Func
dropping = record {
  wasm = 600;
  wasm_end = 604;
  func_type = record { args_num = 0; return_type = 0; args_type_list = [] };
  num_locals = 0;
  num_local_bytes = 0;
}

abbrev dropping_module : Module
dropping_module = record { functions = dropping ∷ []; import_num = 0; global_offsets = [] }

abbrev at_body : State
at_body = record compiler.state {
  start = 600;
  writer = record compiler.state.writer { rom = body };
}

compile_loop-Outcome_example :
    Outcome dropping_module 0 dropping at_body (compile_loop dropping_module 0 dropping 5 at_body)
compile_loop-Outcome_example =
    compile_loop-Outcome dropping_module 0 dropping 5 at_body (omega arith)
