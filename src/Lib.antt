-- ===== src/Lib.antt =====
-- core-swag generates an OpenAPI 2 specification from annotated Go code. This library models the
-- parts of it that read the general information of an API, that register the types of the code and
-- evaluate its constants, that format annotations, that turn the annotations of handlers into
-- operations, and that look after the definitions they refer to.
--
-- How the parts work together: the base parser reads the comments of the main file into the general
-- part of the specification. The route parser reads the comments of each function of a file into
-- an operation, builds the schemas of its parameters and responses, and makes one route of each
-- router path. The orchestrator parses the files at the same time, merges their routes into the
-- paths of the specification, and collects the types that the routes refer to, so that their
-- definitions are built under names that it resolves. The route service has a registration of its
-- own (RegisterRoutes), and the schema package a removal of unused definitions; nothing in the
-- repository but tests calls these two.
--
-- The files and the code that they model:
--   Base, Base/Text, Base/Text/Slices, Base/Lists, Base/Pattern: lists, options, texts as lists of
--     code points, the functions of Go's package strings, and package regexp on the patterns that
--     the program compiles, with its greedy, leftmost search.
--   Spec: the types of github.com/go-openapi/spec that the program uses, and its functions as a
--     record of parameters (Functions) with what their documentation says (IsDocumented).
--   General, General/Fields, General/Attributes, General/Security, General/Cases, General/Parse:
--     internal/parser/base. Api is the part of spec.Swagger that it writes, apply_case the switch of
--     ParseGeneralInfo and general_loop its loop, with the lines that are left in place of the index.
--     A pointer to a tag is one to the last tag. General/Contract is a machine that reads the lines
--     of a comment without fuel, which the loop is compared with.
--   Registry, Registry/Register, Registry/Lookup: internal/registry, without the constants, and
--     TypeSpecDef with its names of internal/domain. Definitions stand in a store, and a pointer is a
--     position in it; enter is the test for names that are not unique. Registry/Declared lists the
--     names that files declare, and Registry/Owner the package that each belongs to.
--   Constants, Constants/Escapes: the evaluation of constants of internal/domain/types.go. An integer
--     is its bit pattern in the width of its type (Kind); evaluate_binary is EvaluateBinary on values
--     that are not nil, without the type of the expression, which is evaluated_type.
--   Constants/Collect, Constants/Expressions, Constants/Evaluate: the constant variables of
--     internal/registry/enums.go and constevaluator.go, and AddConst. A pointer to a constant is its
--     position among all of them; a table of constants is a search for the last of a name.
--   Schema/Cleanup: internal/schema/cleanup.go and getRefName of internal/schema/reference.go. The
--     state is the set of used names; remove_unused_definitions is RemoveUnusedDefinitions, round
--     its inner loop, closure its outer loop.
--   Schema/AllOf: internal/schema/allof.go, function by function.
--   Schema/Types: internal/schema/types.go. A nil schema without an error is nothing; over is the test of
--     each field of MergeSchema.
--   TypeRegistry, TypeRegistry/Fields: internal/typeregistry/registry.go and fields.go, and the
--     primitive types of internal/domain/utils.go.
--   Route/Domain: internal/parser/route/domain/route.go. A pointer to a schema may be null.
--   Route/Convert: internal/parser/route/converter.go, and convertSpecSchemaToDomain of allof.go.
--   Route/TypeNames: the tables of type names of internal/parser/route.
--   Route/Response, Route/Response/Combined, Route/Response/Parse: internal/parser/route/response.go
--     and the rest of allof.go. The interface TypeRegistry is a record (Registry).
--   Route/Parameter: internal/parser/route/parameter.go.
--   Route/Operation, Route/Operation/Parse: internal/parser/route/operation.go and service.go. The
--     record RouteOperation is the struct operation; apply is the switch of parseComment.
--   Route/Register: internal/parser/route/registration.go. A pointer to a field of a path item is
--     the name of the field (Slot).
--   Formatter: internal/format/formatter.go. split is the loop of splitComment2, with the place of the
--     loop (Mode) in place of the index; apply_edits is apply.
--   Orchestrator/Refs: internal/orchestrator/refs.go.
--   Orchestrator/Parallel: internal/orchestrator/routes_parallel.go, from the routes of each file in
--     the order in which the files are done.
--   Orchestrator/Names: internal/orchestrator/name_resolver.go and ref_reconciler.go.
-- The other files prove what is listed below, or run the model on small inputs (Tests).
--
-- How the code is read: a Go map is an association list in some order; where a loop over a map
-- depends on its order, the order is an argument. A float64 is its 64-bit pattern. Errors are
-- values, and an operation that fails returns the state that it leaves. A fault of the program (a
-- nil pointer, a slice taken backwards) is none. Letters change case in ASCII only, and lengths
-- count code points.
--
-- References: package spec reads a reference as a URL and writes it back, so that it changes a name
-- that is not plain, and panics at one that is no URL. Such a panic ends the program; what is said
-- of its results is said of runs without one.
--
-- Bounds: evaluate_const_value has fuel, and more than there are constants is enough, as each
-- turn but the last puts a new name on the stack. general_loop has as many turns as there are
-- lines, and each turn takes a line. closure has fuel, and more fuel than the definitions hold
-- references is enough, as each round but the last marks a new name.
-- resolve_override_type_schema goes to the depth of the length of the type, and each step takes
-- two characters off it. find_all and decimal have the length of their text and the number
-- itself, which are more than they take.
--
-- Parameters: the functions of package spec, the scanning and the conversion of floating-point
-- numbers (Numbers), what go/types and FindTypeSpec find for constants (Program), the registry
-- of types, the markdown directory, and json.Unmarshal.
--
-- Not modelled: the enums and the external packages of internal/registry, internal/model,
-- the rest of internal/format, internal/loader, internal/gen, internal/console and cmd, and of
-- internal/orchestrator and internal/schema the files that are not named above. Files, go list,
-- go/types and the printing of Go code are input and output; the rest is left for later.
pub mod Base
pub mod Constants
pub mod Formatter
pub mod General
pub mod Orchestrator
pub mod Registry
pub mod Route
pub mod Schema
pub mod Spec
pub mod TypeRegistry
