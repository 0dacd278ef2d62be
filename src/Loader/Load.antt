-- ===== src/Loader/Load.antt =====
-- load_module and patch_module_namespace (src/loader.rs), with the references to Python objects that they
-- own. The calls of the interpreter are told whether they succeed.
use tach_core.Base.{
  ℕ, Text, chars, Bool, true, false, ◌||◌, ◌==◌, Option, none, some, List, [], ◌∷◌, any, is_empty,
  ends_with, if◌then◌else◌, nat_eq,
}
use tach_core.Loader.Registry.{ModuleRegistry, get_bytecode, is_package}

-- get_module and is_module_package, over the registry if there is one.
unfoldable pub get_module : Option ModuleRegistry → Text → Option (List ℕ)
unfolding get_bytecode
get_module registry name = elim registry [ none ↦ none | some r ↦ get_bytecode r name ]

unfoldable pub is_module_package : Option ModuleRegistry → Text → Option Bool
unfolding is_package
is_module_package registry name = elim registry [ none ↦ none | some r ↦ is_package r name ]

pub data Object : Type 0 where
  code_obj : Object
  name_obj : Object
  path_obj : Object
  module_obj : Object

unfoldable pub same_object : Object → Object → Bool
same_object code_obj code_obj = true
same_object name_obj name_obj = true
same_object path_obj path_obj = true
same_object module_obj module_obj = true
same_object _ _ = false

-- The owned references; `none` is a release of one that is not owned.
abbrev pub Owned : Type 0
Owned = Option (List Object)

unfoldable pub decref_in : Object → List Object → Owned
unfolding same_object
decref_in o [] = none
decref_in o (p ∷ ps) =
    let rest : Owned = elim (decref_in o ps) [ none ↦ none | some qs ↦ some (p ∷ qs) ] in
    if same_object p o then some ps else rest

unfoldable pub decref : Object → Owned → Owned
unfolding decref_in
decref o none = none
decref o (some owned) = decref_in o owned

unfoldable pub own : Object → Owned → Owned
own o none = none
own o (some owned) = some (o ∷ owned)

-- Whether the calls give an object.
pub record Interpreter : Type 0 where
  pub read_object : Bool
  pub name_string : Bool
  pub path_string : Bool
  pub exec_code_module : Bool
  pub new_list : Bool

pub data Loading : Type 0 where
  loaded : Loading
  value_error : Loading
  python_error : Loading

-- CString::new fails for a text with a NUL.
unfoldable pub has_nul : Text → Bool
unfolding any
has_nul text = any (λ c. c == 0) text

unfoldable pub is_package_source : Option ModuleRegistry → Text → Text → Bool
unfolding is_module_package ends_with
is_package_source registry name source_path =
    ends_with source_path (chars "__init__.py")
    || (elim (is_module_package registry name) [ none ↦ false | some p ↦ p ])

-- patch_module_namespace, and the end of load_module: only the list of __path__ is an error if it fails.
unfoldable pub patch_module : Interpreter → Bool → Owned → Loading × Owned
unfolding decref
patch_module y is_pkg owned =
    if is_pkg
    then (if y.new_list then (loaded, decref module_obj owned) else (python_error, owned))
    else (loaded, decref module_obj owned)

-- With the code object and both strings.
unfoldable pub exec_code : Interpreter → Bool → Owned → Loading × Owned
unfolding patch_module own
exec_code y is_pkg owned =
    if y.exec_code_module
    then patch_module y is_pkg
        (decref path_obj (decref name_obj (decref code_obj (own module_obj owned))))
    else (python_error, decref path_obj (decref name_obj (decref code_obj owned)))

-- With the code object.
unfoldable pub make_strings : Interpreter → Bool → Text → Text → Owned → Loading × Owned
unfolding has_nul exec_code
make_strings y is_pkg name source_path owned =
    if has_nul name || has_nul source_path
    then (value_error, owned)
    else if y.name_string
    then (let named = own name_obj owned in
        if y.path_string
        then exec_code y is_pkg (own path_obj named)
        else (python_error, decref name_obj (decref code_obj named)))
    else (python_error, decref code_obj owned)

unfoldable pub load_module :
    Interpreter → Option ModuleRegistry → Text → Text → List ℕ → Loading × Owned
unfolding make_strings is_package_source
load_module y registry name source_path bytecode =
    if is_empty bytecode
    then (value_error, some [])
    else if y.read_object
    then make_strings y (is_package_source registry name source_path) name source_path
        (own code_obj (some []))
    else (python_error, some [])
