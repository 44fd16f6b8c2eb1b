-- ===== src/ProblemData.antt =====
-- judge/utils/problem_data.py: the compilation of a problem's test cases into its init.yml. A text or a
-- number that is only compared or copied is a natural number, and an empty text is `none`. JSON and YAML
-- are the libraries': what they make of a text is in the records.
pub mod Cases
pub mod Init
pub mod Batches
pub mod Loop
pub mod Counts
pub mod Stored
mod Tests
