-- ===== src/Tests/Modules.antt =====
-- Runs of the parser of src/parse.c on a small module.
use wait.Common.{
  ℕ, ◌+◌, ◌≡◌, ◌≢◌, refl, List, [], ◌∷◌, ◌++◌, All, length, get_or, none, some, true, false, Bool,
  ◌&&◌, ◌==◌, arith,
}
use wait.Common.{ok}
use wait.Leb.{
  Flash, read_u32, read_leb_u7, read_leb_u32, read_leb_i7, read_leb_unsigned,
  read_leb_unsigned_loop, read_leb_signed, read_leb_signed_loop, or_group, sign_extend, read_utf8,
  read_u8, bytes_at, normalize_type,
}
use wait.Leb.Encoding.{Holds, leb_bytes}
use wait.Instructions.{FuncType}
use wait.Parse.{WasmModule, WasmFunction, Fresh, for_each}
use wait.Parse.Types.{parse_section_type, read_func_type, read_argument, read_return_type}
use wait.Parse.Types.RoundTrip.{encode_types, parse_section_type-encode_types}
use wait.Parse.Functions.{
  parse_section_import, read_import, read_import_kind, import_function, add_function,
  parse_section_function, read_function, decimal_name,
}
use wait.Parse.Functions.Added.{Declaration}
use wait.Parse.Storage.{
  parse_type_memory, parse_section_memory, skip_expr, parse_init_expr, read_global,
  parse_section_global, read_segment, parse_section_data,
}
use wait.Parse.Storage.Expressions.{
  SegmentEntry, encode_segment, encode_segments, segment_at, parse_init_expr_lem,
  parse_section_data-encode_segments,
}
use wait.Parse.Reading.{map_from}
use wait.Parse.Code.{
  local_size, read_local_block, set_code, read_code, read_body, parse_section_code,
}
use wait.Parse.Code.Bodies.{Body, encode_bodies, install, parse_section_code-encode_bodies}
use wait.Parse.Load.{parse_module_section, enter_section, load_section, load_loop, wasm_load_module}
use wait.Parse.Load.Invariant.{IsValid}
use wait.Parse.Load.Valid.{wasm_load_module-IsValid}
use wait.Parse.Load.Sections.{
  Section, header, encode_section, parse_sections, wasm_load_module-parse_sections,
}
use wait.Parse.Reading.{encode_all}

-- One type, an import `env.foo`, a function, one page, a global, a body and a segment "hi".
abbrev wasm : List ℕ
wasm =
    0x00 ∷ 0x61 ∷ 0x73 ∷ 0x6d ∷ 0x01 ∷ 0x00 ∷ 0x00 ∷ 0x00 ∷ 0x01 ∷ 0x07 ∷ 0x01 ∷ 0x60 ∷ 0x02 ∷ 0x7f
    ∷ 0x7f ∷ 0x01 ∷ 0x7f ∷ 0x02 ∷ 0x0b ∷ 0x01 ∷ 0x03 ∷ 0x65 ∷ 0x6e ∷ 0x76 ∷ 0x03 ∷ 0x66 ∷ 0x6f
    ∷ 0x6f ∷ 0x00 ∷ 0x00 ∷ 0x03 ∷ 0x02 ∷ 0x01 ∷ 0x00 ∷ 0x05 ∷ 0x03 ∷ 0x01 ∷ 0x00 ∷ 0x01 ∷ 0x06
    ∷ 0x07 ∷ 0x01 ∷ 0x7f ∷ 0x01 ∷ 0x41 ∷ 0x80 ∷ 0x08 ∷ 0x0b ∷ 0x0a ∷ 0x08 ∷ 0x01 ∷ 0x06 ∷ 0x01
    ∷ 0x01 ∷ 0x7f ∷ 0x20 ∷ 0x00 ∷ 0x0b ∷ 0x0b ∷ 0x09 ∷ 0x01 ∷ 0x00 ∷ 0x41 ∷ 0x80 ∷ 0x08 ∷ 0x0b
    ∷ 0x02 ∷ 0x68 ∷ 0x69 ∷ []

abbrev flash : Flash
flash p = get_or wasm p 0

-- The contents of the sections of this module.
abbrev types : List ℕ
types = 0x01 ∷ 0x60 ∷ 0x02 ∷ 0x7f ∷ 0x7f ∷ 0x01 ∷ 0x7f ∷ []

abbrev imports : List ℕ
imports = 0x01 ∷ 0x03 ∷ 0x65 ∷ 0x6e ∷ 0x76 ∷ 0x03 ∷ 0x66 ∷ 0x6f ∷ 0x6f ∷ 0x00 ∷ 0x00 ∷ []

abbrev functions : List ℕ
functions = 0x01 ∷ 0x00 ∷ []

abbrev memories : List ℕ
memories = 0x01 ∷ 0x00 ∷ 0x01 ∷ []

abbrev globals : List ℕ
globals = 0x01 ∷ 0x7f ∷ 0x01 ∷ 0x41 ∷ 0x80 ∷ 0x08 ∷ 0x0b ∷ []

abbrev bodies : List ℕ
bodies = 0x01 ∷ 0x06 ∷ 0x01 ∷ 0x01 ∷ 0x7f ∷ 0x20 ∷ 0x00 ∷ 0x0b ∷ []

abbrev segments : List ℕ
segments = 0x01 ∷ 0x00 ∷ 0x41 ∷ 0x80 ∷ 0x08 ∷ 0x0b ∷ 0x02 ∷ 0x68 ∷ 0x69 ∷ []

abbrev sections : List Section
sections =
    (1, types)
    ∷ (2, imports)
    ∷ (3, functions)
    ∷ (5, memories)
    ∷ (6, globals)
    ∷ (10, bodies)
    ∷ (11, segments)
    ∷ []

abbrev unset_function : WasmFunction
unset_function = record {
  name = [];
  import_info = none;
  compiled = 0;
  func = record {
    wasm = 0;
    wasm_end = 0;
    func_type = record { args_num = 0; return_type = 0; args_type_list = [] };
    num_locals = 0;
    num_local_bytes = 0;
  };
}

abbrev fresh : Fresh
fresh = record {
  return_type = λ i. 0;
  function = λ i. unset_function;
  module_ = record {
    memory = record { init_page_num = 0; max_page_num = 0 };
    memory_imported = false;
    import_num = 0;
    global_list = [];
    function_list = [];
    func_type_list = [];
    data_segment_list = [];
    behind_segments = none;
  };
}

-- Do these bytes stand in the program memory?
same_bytes : Flash → ℕ → List ℕ → Bool
same_bytes f p [] = true
same_bytes f p (b ∷ bs) = f p == b && same_bytes f (p + 1) bs

Holds-same_bytes : (f : Flash) (p : ℕ) (bs : List ℕ) → same_bytes f p bs ≡ true → Holds f p bs
unfolding same_bytes
Holds-same_bytes f p [] e = tt
Holds-same_bytes f p (b ∷ bs) e = (ground arith, Holds-same_bytes f (p + 1) bs (ground arith))

wasm_load_module-parse_sections_example :
    wasm_load_module fresh flash 0 (length (header ++ encode_all encode_section sections))
    ≡ parse_sections fresh flash 8 sections fresh.module_
unfolding leb_bytes same_bytes
wasm_load_module-parse_sections_example =
    wasm_load_module-parse_sections fresh flash sections 0
      ((
        omega arith,
        refl,
        omega arith,
        (
          omega arith,
          refl,
          omega arith,
          (
            omega arith,
            refl,
            omega arith,
            (
              omega arith,
              refl,
              omega arith,
              (
                omega arith,
                refl,
                omega arith,
                (omega arith, refl, omega arith, (omega arith, refl, omega arith, tt)),
              ),
            ),
          ),
        ),
      ))
      (Holds-same_bytes flash 0 (header ++ encode_all encode_section sections) refl) (omega arith)

abbrev two_numbers : FuncType
two_numbers = record { args_num = 2; return_type = 1; args_type_list = 1 ∷ 1 ∷ [] }

abbrev with_types : WasmModule
with_types = record fresh.module_ { func_type_list = two_numbers ∷ [] }

-- The types stand at 10, the functions at 32, the bodies at 50 and the segments at 60.
parse_section_type-encode_types_example :
    parse_section_type fresh flash 10 17 fresh.module_ ≡ ok with_types
unfolding leb_bytes same_bytes
parse_section_type-encode_types_example =
    parse_section_type-encode_types fresh flash (two_numbers ∷ []) 10 17 fresh.module_ (omega arith)
      (omega arith)
      (
        (
          refl,
          omega arith,
          ((omega arith, omega arith), ((omega arith, omega arith), tt)),
          omega arith,
        ),
        tt,
      )
      (Holds-same_bytes flash 10 (encode_types (two_numbers ∷ [])) refl) (omega arith)

abbrev one : List Declaration
one = (0, two_numbers) ∷ []

abbrev body : Body
body = record { blocks = (1, 1) ∷ []; code = 0x20 ∷ 0x00 ∷ 0x0b ∷ [] }

abbrev with_function : WasmModule
with_function = record with_types { function_list = unset_function ∷ [] }

parse_section_code-encode_bodies_example :
    parse_section_code flash 50 58 with_function
    ≡ ok (record with_function { function_list = install 51 (body ∷ []) (unset_function ∷ []) })
unfolding leb_bytes same_bytes
parse_section_code-encode_bodies_example =
    parse_section_code-encode_bodies flash 58 (omega arith) with_function (body ∷ []) []
      (unset_function ∷ []) 50 refl refl (omega arith) (omega arith)
      ((omega arith, ((omega arith, (omega arith, omega arith)), tt)), tt)
      (Holds-same_bytes flash 50 (encode_bodies (body ∷ [])) refl) (omega arith)

abbrev segment : SegmentEntry
segment = record { region = 0; expr = 0x41 ∷ 0x80 ∷ 0x08 ∷ []; contents = 0x68 ∷ 0x69 ∷ [] }

parse_section_data-encode_segments_example :
    parse_section_data flash 60 69 fresh.module_
    ≡ ok (record fresh.module_ {
      data_segment_list = map_from encode_segment segment_at 0 61 (segment ∷ []);
      behind_segments = some 0;
    })
unfolding leb_bytes same_bytes
parse_section_data-encode_segments_example =
    parse_section_data-encode_segments flash 69 (omega arith) (segment ∷ []) 60 fresh.module_
      (omega arith) ((omega arith, expr, omega arith, omega arith, omega arith), tt)
      (Holds-same_bytes flash 60 (encode_segments (segment ∷ [])) refl) (omega arith)
  where
    expr : All (λ b. b ≢ 0x0b) segment.expr
    expr = (λ z. omega arith, (λ z. omega arith, (λ z. omega arith, tt)))

-- i32.const 11: the operand is taken for the end.
abbrev eleven : Flash
eleven p = get_or (0x41 ∷ 0x0b ∷ 0x0b ∷ []) p 0

parse_init_expr_lem_example : parse_init_expr eleven 3 0 ≡ 2
unfolding same_bytes
parse_init_expr_lem_example =
    parse_init_expr_lem eleven (0x41 ∷ []) 0 3 (λ z. omega arith, tt)
      (Holds-same_bytes eleven 0 (0x41 ∷ 0x0b ∷ []) refl) (omega arith)

abbrev loaded : WasmModule
loaded = record {
  memory = record { init_page_num = 1; max_page_num = 0 };
  memory_imported = false;
  import_num = 1;
  global_list =
      record { init_expr = 44; init_expr_size = 4; type = 1; imported = false; is_mutable = 1 }
      ∷ [];
  function_list =
      record unset_function {
        name = 102 ∷ 111 ∷ 111 ∷ [];
        import_info =
            some (record { module_utf8 = 101 ∷ 110 ∷ 118 ∷ []; field_utf8 = 102 ∷ 111 ∷ 111 ∷ [] });
        func = record unset_function.func { func_type = two_numbers };
      }
      ∷ record unset_function {
        name = 49 ∷ [];
        func = record {
          wasm = 55;
          wasm_end = 58;
          func_type = two_numbers;
          num_locals = 1;
          num_local_bytes = 4;
        };
      }
      ∷ [];
  func_type_list = two_numbers ∷ [];
  data_segment_list =
      record {
        init_expr = 62;
        bytes = 67;
        init_expr_size = 4;
        memory_region = 0;
        size = 2;
        spill = 0;
      }
      ∷ [];
  behind_segments = some 0;
}

loads : wasm_load_module fresh flash 0 69 ≡ ok loaded
unfolding read_u32 read_leb_u7 read_leb_u32 read_leb_i7 read_leb_unsigned read_leb_unsigned_loop
    read_leb_signed read_leb_signed_loop or_group sign_extend read_utf8 read_u8 bytes_at
    normalize_type for_each parse_section_type read_func_type read_argument read_return_type
    parse_section_import read_import read_import_kind import_function add_function
    parse_section_function read_function decimal_name parse_type_memory parse_section_memory
    skip_expr parse_init_expr read_global parse_section_global read_segment parse_section_data
    local_size read_local_block set_code read_code read_body parse_section_code parse_module_section
    enter_section load_section load_loop wasm_load_module
loads = refl

wasm_load_module-IsValid_example : IsValid loaded
wasm_load_module-IsValid_example = wasm_load_module-IsValid fresh flash 0 69 loaded refl refl loads
