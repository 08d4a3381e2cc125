-- ===== src/Lib.antt =====
-- xb, an XML data binding library for C++: its arbitrary-precision integers, its types for dates, times and
-- durations, its RELAX NG patterns with their simplification, its sets of schemas, the C++ names that it gives
-- to the names of a schema, and its MIME multipart messages.
--
-- The parts and the files that model them:
--   Integer     src/lib/integer.cpp and src/include/xb/integer.hpp. Integer/Magnitude has the helpers on
--               `std::vector<uint32_t>` (a list of limbs, the least significant first), Integer/Divmod
--               `magnitude_divmod`, Integer/Ops the class and its operators, Integer/Decimal the
--               constructor from a text and `to_string`, Integer/Words the 64-bit conversions. The other
--               modules hold the proofs: Integer/Value gives a magnitude its number, and Integer/Ring an
--               integer its signed number (`to_ℤ`) and the form that all operations keep (`IsInteger`).
--   Temporal    src/lib/xsd_time_parse.hpp in Temporal/Lexical (offsets and fractions) and
--               Temporal/Calendar (months, leap years, `normalize_to_utc`); src/lib/date.cpp, time.cpp and
--               date_time.cpp in Temporal/Date, Temporal/Time and Temporal/DateTime. Temporal/Settle
--               is a calendar apart from the code and without bounds, Temporal/Instant numbers its days,
--               Temporal/YearBounds compares the code with it, and the other modules hold the proofs.
--   Duration    src/lib/year_month_duration.cpp in Duration/YearMonth, src/lib/duration.cpp in
--               Duration/Full, and the readers that they share in Duration/Scan; Duration/Runs has the rounds
--               of a loop without fuel, and the other modules the proofs.
--   Rng         src/include/xb/rng_pattern.hpp in Rng/Pattern and src/lib/rng_simplify.cpp in Rng/Names (sets)
--               and Rng/Simplify. Rng/Language says what patterns mean, Rng/MergeLaws is about
--               `merge_combines`, Rng/Marking, Rng/Reach, Rng/Sound and Rng/Chains about
--               `remove_unreachable`, and Rng/SimpleForm (simplification without exceptions),
--               Rng/SimpleFormLaws, Rng/Kept, Rng/Preserve, Rng/Returns and Rng/Simple about the whole.
--   Naming      src/lib/naming.cpp: the styles in Naming/Style, identifiers in Naming/Identifier, namespaces in
--               Naming/Namespace, and the proofs about each in the modules named after it.
--   Schema      the schema model under src/include/xb in Schema/Model, src/lib/schema_set.cpp in Schema/Set (the
--               tables and the checks) and Schema/Resolve (`resolve` and the lookups). Schema/Refs collects the
--               references of a schema, Schema/Names and Schema/Tables are about the tables, Schema/Fresh and
--               Schema/Checks about the two phases, and Schema/Resolved, Schema/Laws and Schema/Complete about
--               sets.
--   Mime        src/lib/mime_multipart.cpp: the codec in Mime/Multipart, the content type in Mime/ContentType; the
--               proofs in Mime/HeaderLaws and Mime/RoundTrip.
--   Common      Boolean tests, lists, signed integers, exceptions as results, decimal texts, and the
--               conversions between the fixed-width types of C++.
--
-- How they interact: the three types for dates and times call the functions of Lexical and Calendar, the
-- parser of `date_time` reads the date and the clock as those of `date` and `time` do, `time_part` prints and
-- parses a `time`, and the year and month part of a `duration` is a `year_month_duration`. The
-- namespaces that `default_namespace_for` chooses are made of identifiers, which are names in a style.
--
-- How the code is modelled: an operation is a function on records, and an exception is an error of
-- `Result`. A position in a text is what is left of the text from there on, and a `char` is a byte. A
-- `uint32_t` or `uint64_t` is a number with its wrap-around written out; a cast to `int16_t`, `int32_t` or
-- `uint8_t` wraps around as the code does. Signed overflow in the parsers is the error `undefined`. A step of a
-- year past an end of `int32_t` is that error too, in `normalize_to_utc` and where 24:00:00 rolls to the next
-- day. The minutes and days that `normalize_to_utc` computes with are unbounded numbers: those that the types
-- of its arguments allow fit an `int`. A null `std::unique_ptr` is a constructor of its own, a set or a map of
-- names is a list, and `std::regex_replace` and the resolver of external references are arguments; what the
-- resolver throws leaves the simplifier, and the text that it returns is dropped, as in the code.
--
-- Loops are recursions on the limbs or characters that they visit. These have fuel: the printer of an integer
-- (more than the number), the bit length of a limb (more than the limb), the two loops that settle a day (the
-- distance of the day from 0, for each round moves it by 28 or more) and the loops of the parser of `duration`
-- (more than the length of the text, for each round reads a digit). `simplify_impl` simplifies the bodies of a
-- grammar when they have been merged, so its fuel is the size of the pattern, which merging keeps, and the
-- rounds of `remove_unreachable` have one more than the number of names in the bodies, for each round that
-- goes on has marked one of them. The loops of the MIME parser have more than the length of the data, for
-- each round reads a line or a boundary.
--
-- Not modelled: the random boundaries of MIME messages, the write access to the schemas of a set, the
-- conversions to `double` and to the calendar types of `std::chrono`, and the parts of the repository that stand
-- beside these: the parsers and writers of schema languages, the rest of the schema model, the code generators,
-- and the SOAP and WSDL support. Where a theorem speaks of well-formed values, its predicate says what they
-- are; not every value that a constructor or an operator leaves is one of them.
pub mod Common
pub mod Integer
pub mod Temporal
pub mod Duration
pub mod Rng
pub mod Naming
pub mod Schema
pub mod Mime
